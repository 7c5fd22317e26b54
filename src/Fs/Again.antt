-- ===== src/Fs/Again.antt =====
-- Kernel/drivers/core/fs.c: what was written is read again, before and after a flush.
use aos.Base.{ℕ, ◌+◌, ◌<◌, ◌≤◌, ◌≡◌, refl, sym, ap, arith, Bool, true, false, ltb, ◌==◌}
use aos.Base.{List, ◌∷◌, Option, none, some, Exec, done, ◌>>=◌, Ends}
use aos.Base.{◌∙◌}
use aos.Fs.{Pbfs, Chunk, Answer, Handler, File, Env, set, fs_sign, chunk_size, fill}
use aos.Fs.{put_handle, read_file, write_file, flushed, flush_file, seek_file, free_if}
use aos.Fs.Sound.{IsBounded, IsOpen}
use aos.Fs.Ready.{IsReady, Written, read-ready, seek-ready, write_file-Written}

-- An answer that holds the first bytes of `buf`.
abbrev pub Bytes : Option Chunk → (size : ℕ) → (buf : Chunk) → Type 0
Bytes none size buf = ⊥
Bytes (some b) size buf = (i : ℕ) → i < size → b i ≡ buf i

-- PBFS reads back what it was given, where there is room for it.
abbrev pub IsLawful : Pbfs → Type 0
IsLawful P =
    (d : P.Disk) (entry : P.Entry) (c : Chunk) (size limit : ℕ) (entry' : P.Entry) (d' : P.Disk)
    → P.update_file d entry c size ≡ (true, entry', d')
    → size ≤ limit
    → ((P.read_file d' entry' limit).ok ≡ true)
      × ((P.read_file d' entry' limit).size ≡ size)
      × ((i : ℕ) → i < size → (P.read_file d' entry' limit).byte i ≡ c i)

done_inj {ℓ} : {A : Type ℓ} {a b : A} → done a ≡ done b → a ≡ b
done_inj q = cc

filled : (a : Answer) (c : Chunk) (total i : ℕ) → a.size ≡ total → i < total → fill a c i ≡ a.byte i
filled a c total i all inside = ground arith

module _ {P : Pbfs} where
  pub free_if-disk : (o : Option Chunk) (e : Env P) → (free_if o e).disk ≡ e.disk
  free_if-disk none e = refl
  free_if-disk (some c) e = refl

  free_if-mounted : (o : Option Chunk) (e : Env P) → (free_if o e).mounted ≡ e.mounted
  free_if-mounted none e = refl
  free_if-mounted (some c) e = refl

  -- The position is set back, and the bytes are read.
  abbrev pub read_back : File P → (at size : ℕ) → Env P → Exec (Option Chunk × File P × Env P)
  read_back f at size e = seek_file f at set e >>= λ (ok, f', e'). read_file f' size e'

  pub IsReady-move :
      (f : File P) (e : Env P) (h : Handler P) (c : Chunk) (at : ℕ)
      → IsReady f e h c
      → IsReady (record (put_handle f h) { cur_seek = at }) e h c
  IsReady-move f e h c at r = record {
    mounted = r.mounted;
    opened = r.opened;
    handle = refl;
    signed = r.signed;
    contents = r.contents;
    current = r.current;
    fits = r.fits;
  }

  pub read_back-ready :
      (f : File P) (e : Env P) (h : Handler P) (c : Chunk) (at size : ℕ) (buf : Chunk)
      → IsReady f e h c
      → 0 < size
      → at + size ≤ h.file_data_size
      → ((i : ℕ) → i < size → c (at + i) ≡ buf i)
      → Ends (read_back f at size e) (λ (r, f', e'). Bytes r size buf × (f'.cur_seek ≡ at + size))
  read_back-ready f e h c at size buf r pos fit same =
      rw (seek-ready f e h c r at (omega (arith, fit))) (
        rw
          (read-ready (record (put_handle f h) { cur_seek = at }) e h c (IsReady-move f e h c at r)
            size pos fit)
          (same, refl))

  pub flush-ready :
      (f : File P) (e : Env P) (h : Handler P) (c : Chunk)
      → IsReady f e h c
      → h.flush_required ≡ true
      → 0 < h.file_data_size
      → flush_file f e ≡ done (flushed f h e (P.update_file e.disk h.entry c h.file_data_size))
  unfolding flush_file
  flush-ready f e h c r need pos =
      let nz : (h.file_data_size == 0) ≡ false = ground arith in
      rw (r.mounted, r.handle, r.signed, need, r.contents, nz)

  -- A seek to a position in the contents that PBFS reads into new memory.
  seek-refreshed :
      (f : File P) (e : Env P) (h : Handler P) (c : Chunk) (answers : List (Option Chunk)) (at : ℕ)
      → e.mounted ≡ true
      → f.closed ≡ false
      → f.handle ≡ some h
      → h.sign ≡ fs_sign
      → h.file_data ≡ none
      → e.answers ≡ some c ∷ answers
      → (P.read_file e.disk h.entry chunk_size).ok ≡ true
      → (P.read_file e.disk h.entry chunk_size).size ≤ chunk_size
      → at ≤ (P.read_file e.disk h.entry chunk_size).size
      → let a = P.read_file e.disk h.entry chunk_size in
        let h' = record h {
          file_data = some (fill a c);
          file_data_size = a.size;
          refresh_req = false;
        } in
        seek_file f at set e
        ≡ done (
          true,
          record (put_handle f h') { cur_seek = at },
          record e { answers = answers; live = e.live + 1 },
        )
  unfolding seek_file
  seek-refreshed f e h c answers at m o p s n more ok fit inside =
      let small : ltb chunk_size (P.read_file e.disk h.entry chunk_size).size ≡ false =
        ground arith in
      let here : ltb (P.read_file e.disk h.entry chunk_size).size at ≡ false = ground arith in
      rw (m, o, p, s, n, more, small, ok, here)

  reread :
      (f : File P) (e : Env P) (h : Handler P) (c' : Chunk) (answers : List (Option Chunk))
      (at size : ℕ) (buf c : Chunk) (total : ℕ)
      → e.mounted ≡ true
      → f.closed ≡ false
      → f.handle ≡ some h
      → h.sign ≡ fs_sign
      → h.file_data ≡ none
      → e.answers ≡ some c' ∷ answers
      → ((P.read_file e.disk h.entry chunk_size).ok ≡ true)
        × ((P.read_file e.disk h.entry chunk_size).size ≡ total)
        × ((i : ℕ) → i < total → (P.read_file e.disk h.entry chunk_size).byte i ≡ c i)
      → total ≤ chunk_size
      → 0 < size
      → at + size ≤ total
      → ((i : ℕ) → i < size → c (at + i) ≡ buf i)
      → Ends (read_back f at size e) (λ (r, f', e'). Bytes r size buf × (f'.cur_seek ≡ at + size))
  reread f e h c' answers at size buf c total m o p s n more (ok, all, bytes) fits pos fit same =
      let a = P.read_file e.disk h.entry chunk_size in
      let h' : Handler P = record h {
        file_data = some (fill a c');
        file_data_size = a.size;
        refresh_req = false;
      } in
      let f' : File P = record (put_handle f h') { cur_seek = at } in
      let e' : Env P = record e { answers = answers; live = e.live + 1 } in
      let ready : IsReady f' e' h' (fill a c') = record {
        mounted = m;
        opened = o;
        handle = refl;
        signed = s;
        contents = refl;
        current = refl;
        fits = omega (arith, all, fits);
      } in
      rw
        (seek-refreshed f e h c' answers at m o p s n more ok (omega (arith, all, fits))
          (omega (arith, all, fit)))
        (rw (read-ready f' e' h' (fill a c') ready size pos (omega (arith, all, fit))) (
          λ i lt.
              filled a c' total (at + i) all (omega (arith, fit, lt))
              ∙ bytes (at + i) (omega (arith, fit, lt))
              ∙ same i lt,
          refl,
        ))

  flushed_lem :
      (f : File P) (h : Handler P) (e : Env P) (a : Bool × P.Entry × P.Disk) (f' : File P)
      (e' : Env P)
      → flushed f h e a ≡ (true, f', e')
      → (a.0 ≡ true)
        × (f'
            ≡ put_handle f (record h {
              entry = a.1;
              file_data = none;
              file_data_size = 0;
              flush_required = false;
              refresh_req = true;
            }))
        × (e' ≡ free_if h.file_data (record e { disk = a.2 }))
  flushed_lem f h e (true, entry, disk) f' e' q =
      (refl, sym (ap (λ x. x.1) q), sym (ap (λ x. x.2) q))
  flushed_lem f h e (false, entry, disk) f' e' q = cc

  module _ (bounded : IsBounded P) (others : ℕ) (f : File P) (size : ℕ) (buf : Chunk) (e : Env P)
      (f' : File P) (e' : Env P) (o : IsOpen others false f e) (pos : 0 < size)
      (written : write_file f size buf e ≡ done (true, f', e')) where
    after_write : Written f size buf (true, f', e')
    after_write = rw written at (write_file-Written bounded others f size buf e o pos)

    -- On an open file, bytes that write_file wrote are read again, from the position at which it
    -- began.
    pub write-read_back :
        Ends
          (read_back f' f.cur_seek size e')
          (λ (r, g, e''). Bytes r size buf × (g.cur_seek ≡ f.cur_seek + size))
    write-read_back =
        let (h, c, r, fit, need, same) = after_write refl in
        read_back-ready f' e' h c f.cur_seek size buf r pos fit same

    -- So they are after a flush that succeeded, where memory is to be had, on a PBFS that reads back
    -- what it was given.
    pub flush-read_back :
        (lawful : IsLawful P) (f2 : File P) (e2 : Env P) (c' : Chunk)
        (answers : List (Option Chunk))
        → flush_file f' e' ≡ done (true, f2, e2)
        → e2.answers ≡ some c' ∷ answers
        → Ends
            (read_back f2 f.cur_seek size e2)
            (λ (r, g, e3). Bytes r size buf × (g.cur_seek ≡ f.cur_seek + size))
    flush-read_back lawful f2 e2 c' answers flushed_ok more =
        let (h, c, r, fit, need, same) = after_write refl in
        let q = flush-ready f' e' h c r need (omega (arith, fit, pos)) in
        let a = P.update_file e'.disk h.entry c h.file_data_size in
        let (ok, pf, pe) = flushed_lem f' h e' a f2 e2 (done_inj (sym q ∙ flushed_ok)) in
        let disk : e2.disk ≡ a.2 = ap (λ (x : Env P). x.disk) pe ∙ free_if-disk h.file_data _ in
        let mounted : e2.mounted ≡ true =
          ap (λ (x : Env P). x.mounted) pe ∙ free_if-mounted h.file_data _ ∙ r.mounted in
        let law =
          lawful e'.disk h.entry c h.file_data_size chunk_size a.1 a.2 (λ i. (ok i, a.1, a.2))
            r.fits in
        reread f2 e2 _ c' answers f.cur_seek size buf c h.file_data_size mounted
          (ap (λ (x : File P). x.closed) pf ∙ r.opened) (ap (λ (x : File P). x.handle) pf) r.signed
          refl more (rw disk law) r.fits pos fit same
