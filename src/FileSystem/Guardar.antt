-- ===== src/FileSystem/Guardar.antt =====
-- `guardar_datos` of FileSystem/fs.h against the bytes of the files.
use Prim.Native.String.{String}
use text.Mathlib.TextPositions.{eq_refl}
use text.Mathlib.TextEquality.{eq_iff}
use native.Mathlib.Nat.{le_trans}
use tp_so_2017_twt.Prelude.{
  ℕ, ◌+◌, ◌*◌, ◌-◌, ◌≤◌, ◌<◌, ◌^◌, ◌≡◌, refl, sym, ap, ◌∙◌, ◌≢◌, true, some, List, arith, length,
  get_elem?, get_or, ◌>>=◌, ℤ, pos, neg, get_elem?-eq-get_or, max,
}
use tp_so_2017_twt.FileSystem.Bloques.{
  Bloque, int32-some, blocks_to_process, blocks_to_process-Covers,
}
use tp_so_2017_twt.FileSystem.Datos.{
  BitArray, Disco, Archivo, con_formato, Estado, write, poner, ultimo_id, escribir_bloques,
}
use tp_so_2017_twt.FileSystem.Defs.{
  cantidad_bloques_libres, asignar_bloques, guardar_datos, obtener_datos,
}
use tp_so_2017_twt.FileSystem.Escritura.{Written, escribir_bloques-Written}
use tp_so_2017_twt.FileSystem.Invariante.{
  bloque_en, bloque_de, bloque_de-poner, bloque_de-con_formato, IsSane, IsSane-kept,
  IsSane-same_blocks,
}
use tp_so_2017_twt.FileSystem.Asignacion.{
  asignar_bloques-IsLonger, Covers-IsIn, ultimo_id_lem, IsSane-IsMapped,
}
use tp_so_2017_twt.FileSystem.Lectura.{Contiene, obtener_datos-Contiene, obtener_datos_congr}
use tp_so_2017_twt.FileSystem.Celdas.{
  contenido, contenido-Holds, longer-Holds, times_lt, times_le, bloque_de-poner_self,
  bloque_de-poner_same,
}

module _ (B : BitArray) (size_bloque : ℕ) where
  open B use {Bits}

  -- The invariant of the server: the blocks are in order, and each file fits its blocks.
  pub record IsValid (s : Estado Bits) : Type 0 where
    pub sane : IsSane B s.archivos s.bitmap s.bloques
    pub fits :
        (p : String) (a : Archivo)
        → s.archivos p ≡ some (con_formato a)
        → a.tamanio ≤ length a.array * size_bloque

  -- The state after a `guardar_datos` at `path`, of a file of `tamanio` bytes `g` then: nothing
  -- that can be read of another path has changed.
  pub record IsSaved (s s' : Estado Bits) (path : String) (g : ℕ → ℕ) (tamanio : ℕ) : Type 0 where
    pub valid : IsValid s'
    pub contiene : Contiene B size_bloque s' path g tamanio
    pub others :
        (q : String) (o n : ℤ)
        → q ≢ path
        → obtener_datos B size_bloque s' q o n ≡ obtener_datos B size_bloque s q o n

  module _ (s : Estado Bits) (path : String) (a : Archivo) (offset size : ℕ) (buffer : List ℕ)
      (pos_s : 0 < size_bloque) (v : IsValid s) (e : s.archivos path ≡ some (con_formato a))
      (pos_n : 0 < size) (len : length buffer ≡ size)
      (fit : offset + size + size_bloque ≤ 2 ^ 31) where
    guardar_rango_run :
        (bs : List Bloque) (last : ℕ) (a' : Archivo) (b' : Bits) (d' : Disco)
        → blocks_to_process size_bloque offset size ≡ some bs
        → ultimo_id bs ≡ some last
        → last + 1 - length a.array ≤ cantidad_bloques_libres B s.bitmap
        → asignar_bloques B (last + 1 - length a.array) a s.bitmap ≡ some (a', b')
        → escribir_bloques s.bloques a'.array bs buffer ≡ some (true, d')
        → guardar_datos B size_bloque s path (pos offset) (pos size) buffer
          ≡ some (
            pos 1,
            record {
              archivos =
                  poner s.archivos path
                    (some (con_formato (record a' { tamanio = max a'.tamanio (offset + size) })));
              bitmap = b';
              bloques = d';
            },
          )
    unfolding guardar_datos
    guardar_rango_run bs last a' b' d' cut el room given wrote =
        rw (e, guardar_datos, cut, ◌>>=◌, el)
          (ground (arith, int32-some (offset + size) (omega (arith, fit, pos_s))))

    full_run :
        (bs : List Bloque) (last : ℕ)
        → blocks_to_process size_bloque offset size ≡ some bs
        → ultimo_id bs ≡ some last
        → cantidad_bloques_libres B s.bitmap < last + 1 - length a.array
        → guardar_datos B size_bloque s path (pos offset) (pos size) buffer ≡ some (neg 16, s)
    unfolding guardar_datos
    full_run bs last cut el room = rw (e, guardar_datos, cut, ◌>>=◌, el) (ground arith)

    -- In a valid server, with blocks of more than 0 bytes, if the path holds a well-formed file,
    -- the data has `size` > 0 bytes the end of the range plus the size of a block is at most 2^31,
    -- and the range ends past the blocks of the file and the free blocks together, then
    -- `guardar_datos` answers -16 and changes nothing.
    pub guardar_datos-full :
        (length a.array + cantidad_bloques_libres B s.bitmap) * size_bloque < offset + size
        → guardar_datos B size_bloque s path (pos offset) (pos size) buffer ≡ some (neg 16, s)
    guardar_datos-full h =
        let (bs, cut, cover) = blocks_to_process-Covers size_bloque offset size pos_s fit in
        let (last, el, lo, hi) = ultimo_id_lem size_bloque offset size bs cover pos_n in
        let over : length a.array + cantidad_bloques_libres B s.bitmap < last + 1 =
          times_lt size_bloque _ _ (omega arith) in
        full_run bs last cut el (omega arith)

    -- The state that the operation leaves, from what its loops leave
    saved_state : Archivo → Bits → Disco → Estado Bits
    saved_state a' b' d' = record {
      archivos =
          poner s.archivos path
            (some (con_formato (record a' { tamanio = max a'.tamanio (offset + size) })));
      bitmap = b';
      bloques = d';
    }

    module _ (a' : Archivo) (b' : Bits) (d' : Disco) (g : ℕ → ℕ)
        (sane : IsSane B (poner s.archivos path (some (con_formato a'))) b' s.bloques)
        (fits : offset + size ≤ length a'.array * size_bloque)
        (more : a.tamanio ≤ length a'.array * size_bloque) (same : a'.tamanio ≡ a.tamanio)
        (w : Written s.bloques d' a'.array size_bloque g) where
      saved_archivo : Archivo
      saved_archivo = record a' { tamanio = max a'.tamanio (offset + size) }

      at_path : (saved_state a' b' d').archivos path ≡ some (con_formato saved_archivo)
      unfolding saved_state saved_archivo
      at_path = rw (eq_refl path)

      elsewhere : (q : String) → q ≢ path → (saved_state a' b' d').archivos q ≡ s.archivos q
      unfolding saved_state
      elsewhere q ne = ground (arith, eq_iff path q)

      saved-IsValid : IsValid (saved_state a' b' d')
      unfolding saved_state bloque_en
      saved-IsValid = record {
        sane = IsSane-same_blocks B _ (IsSane-kept B d' sane w.kept) (λ p i.
            bloque_de-poner s.archivos path _ p i
            ∙ sym (bloque_de-poner s.archivos path (some (con_formato a')) p i));
        fits = λ p c ep. ground (arith, v.fits p c);
      }

      -- A block of another file is none of this one's.
      other_block_ne :
          (q : String) (c : Archivo) (i m j : ℕ)
          → q ≢ path
          → s.archivos q ≡ some (con_formato c)
          → get_elem? c.array i ≡ some m
          → j < length a'.array
          → get_or a'.array j 0 ≢ m
      other_block_ne q c i m j ne ec em lj ej =
          let theirs : bloque_de (poner s.archivos path (some (con_formato a'))) q i ≡ some m =
            ground (
              arith,
              eq_iff path q,
              bloque_de-poner s.archivos path (some (con_formato a')) q i,
              bloque_de-con_formato s.archivos q c i,
            ) in
          let ours : bloque_de (poner s.archivos path (some (con_formato a'))) path j ≡ some m =
            bloque_de-poner_self s.archivos path a' j
            ∙ get_elem?-eq-get_or a'.array j 0 lj
            ∙ ap some ej in
          ne (sane.apart q path i j m theirs ours).0

      saved-others :
          (q : String) (o n : ℤ)
          → q ≢ path
          → obtener_datos B size_bloque (saved_state a' b' d') q o n
            ≡ obtener_datos B size_bloque s q o n
      unfolding saved_state
      saved-others q o n ne =
          obtener_datos_congr B size_bloque s (saved_state a' b' d') q o n (elsewhere q ne)
            (λ c ec i m em. w.others m (λ j lj. other_block_ne q c i m j ne ec em lj))

      final-IsSaved : IsSaved s (saved_state a' b' d') path g (max a.tamanio (offset + size))
      unfolding saved_state saved_archivo
      final-IsSaved = record {
        valid = saved-IsValid;
        contiene = rw (← same) (
            obtener_datos-Contiene B size_bloque (saved_state a' b' d') path saved_archivo g pos_s
              at_path (omega arith) w.mapped w.holds);
        others = saved-others;
      }

    -- In a valid server, with blocks of more than 0 bytes, if the path holds a well-formed file,
    -- the data has `size` > 0 bytes the end of the range plus the size of a block is at most 2^31,
    -- and the range ends inside the blocks of the file and the free blocks together, then
    -- `guardar_datos` answers 1 and leaves a valid server, where the file holds what it held
    -- before overwritten by the data at the offset (as far as reads in the same bound of 2^31
    -- tell), is as long as the greater of its length and the end of the range, and no answer about
    -- another path has changed.
    pub guardar_datos-IsSaved :
        offset + size ≤ (length a.array + cantidad_bloques_libres B s.bitmap) * size_bloque
        → (s' : Estado Bits) × (g : ℕ → ℕ) × (guardar_datos B size_bloque s path
              (pos offset)
              (pos size)
              buffer
            ≡ some (pos 1, s'))
          × Contiene B size_bloque s path g a.tamanio
          × IsSaved s s' path (write g offset buffer) (max a.tamanio (offset + size))
    guardar_datos-IsSaved room =
        let (bs, cut, cover) = blocks_to_process-Covers size_bloque offset size pos_s fit in
        let (last, el, lo, hi) = ultimo_id_lem size_bloque offset size bs cover pos_n in
        let n : ℕ = last + 1 - length a.array in
        let under : last < length a.array + cantidad_bloques_libres B s.bitmap =
          times_lt size_bloque _ _ (omega arith) in
        let start =
          IsSane-same_blocks B (poner s.archivos path (some (con_formato a))) v.sane
            (bloque_de-poner_same s.archivos path a a e refl) in
        let (a', b', given, sane, longer) =
          asignar_bloques-IsLonger B s.archivos path s.bloques n a s.bitmap start (omega arith) in
        let mapped =
          IsSane-IsMapped B _ b' s.bloques path a'.array sane
            (bloque_de-poner_self s.archivos path a') in
        let g : ℕ → ℕ = contenido size_bloque s.bloques a'.array in
        let fits : offset + size ≤ length a'.array * size_bloque =
          le_trans hi (times_le size_bloque _ _ (omega (arith, longer.size))) in
        let more : a.tamanio ≤ length a'.array * size_bloque =
          le_trans (v.fits path a e) (times_le size_bloque _ _ (omega (arith, longer.size))) in
        let (d', wrote, w) =
          escribir_bloques-Written s.bloques a'.array size_bloque offset size bs g buffer cover len
            (Covers-IsIn size_bloque offset size bs a'.array cover fits) mapped
            (contenido-Holds size_bloque s.bloques a'.array) in
        (
          saved_state a' b' d',
          g,
          unfold saved_state in guardar_rango_run bs last a' b' d' cut el (omega arith) given wrote,
          obtener_datos-Contiene B size_bloque s path a g pos_s e (v.fits path a e)
              (IsSane-IsMapped B s.archivos s.bitmap s.bloques path a.array v.sane
                (λ i. bloque_de-con_formato s.archivos path a i e))
              (longer-Holds size_bloque s.bloques n a a' longer),
          final-IsSaved a' b' d' _ sane fits more longer.tamanio w,
        )
