-- ===== src/Fs/Ready.antt =====
-- Kernel/drivers/core/fs.c: the calls on a file whose contents are loaded, and the states that a
-- call leaves.
use aos.Base.{
  ℕ, ◌+◌, ◌-◌, ◌<◌, ◌≤◌, ◌≡◌, refl, arith, Bool, true, false, not, ◌&&◌, ◌||◌, ltb, leb, ◌==◌,
}
use aos.Base.{
  List, [], ◌∷◌, Option, none, some, if◌then◌else◌, if_cases, Exec, done, Ends, Ends-bind,
  Ends-both,
}
use aos.Fs.{Pbfs, Chunk, Handler, File, Env, SeekMode, cur, end, set, fs_sign, chunk_size}
use aos.Fs.{is_some, load, out_of_range, put_handle, copy_into, load_into, alloc_from, ensure_chunk}
use aos.Base.{Option-cases, inl, inr, ◌∙◌}
use aos.Fs.{read_file, write_loaded, write_file}
use aos.Fs.{seek_file}
use aos.Fs.Sound.{IsBounded, IsOpen, IsLoaded, load-IsLoaded}
use aos.Fs.Kept.{with_handle_lem}

copied :
    (c : Chunk) (at size : ℕ) (buf : Chunk) (i : ℕ)
    → i < size
    → copy_into c at size buf (at + i) ≡ buf i
copied c at size buf i inside =
    let here : leb at (at + i) && ltb (at + i) (at + size) ≡ true = ground arith in
    let index : at + i - at ≡ i = omega arith in rw (here, index)

-- Where a seek ends that is allowed: within the contents.
abbrev pub target : SeekMode → (size cur_seek seek_to : ℕ) → Option ℕ
target cur size cur_seek seek_to =
    if leb (cur_seek + seek_to) size then some (cur_seek + seek_to) else none
target end size cur_seek seek_to = if leb seek_to size then some (size - seek_to) else none
target set size cur_seek seek_to = if leb seek_to size then some seek_to else none

module _ {P : Pbfs} where
  -- The file is open, and its contents are the first bytes of `c`.
  pub record IsReady (f : File P) (e : Env P) (h : Handler P) (c : Chunk) : Type 0 where
    pub mounted : e.mounted ≡ true
    pub opened : f.closed ≡ false
    pub handle : f.handle ≡ some h
    pub signed : h.sign ≡ fs_sign
    pub contents : h.file_data ≡ some c
    pub current : h.refresh_req ≡ false
    pub fits : h.file_data_size ≤ chunk_size

  module _ (f : File P) (e : Env P) (h : Handler P) (c : Chunk) (r : IsReady f e h c) where
    pub load-ready : (limit : ℕ) → load h limit e ≡ done (true, h, e)
    unfolding load
    load-ready limit = rw (r.contents, r.current)

    in_range :
        (size : ℕ)
        → f.cur_seek + size ≤ h.file_data_size
        → (out_of_range h f.cur_seek size ≡ false) × (ltb chunk_size (f.cur_seek + size) ≡ false)
    in_range size fit = ground (arith, r.fits)

    pub read-ready :
        (size : ℕ)
        → 0 < size
        → f.cur_seek + size ≤ h.file_data_size
        → read_file f size e
          ≡ done (
            some (λ i. c (f.cur_seek + i)),
            record (put_handle f h) { cur_seek = f.cur_seek + size },
            e,
          )
    unfolding read_file
    read-ready size pos fit =
        let nz : (size == 0) ≡ false = ground arith in
        let (inside, small) = in_range size fit in
        rw (r.mounted, nz, r.opened, r.handle, r.signed, r.current, r.contents, inside, small)

    pub seek-ready :
        (seek_to : ℕ)
        → seek_to ≤ h.file_data_size
        → seek_file f seek_to set e ≡ done (true, record (put_handle f h) { cur_seek = seek_to }, e)
    unfolding seek_file
    seek-ready seek_to fit =
        let inside : ltb h.file_data_size seek_to ≡ false = ground arith in
        rw (r.mounted, r.opened, r.handle, r.signed, r.current, r.contents, inside)

    pub write-ready :
        (size : ℕ) (buf : Chunk)
        → 0 < size
        → f.cur_seek + size ≤ h.file_data_size
        → write_file f size buf e
          ≡ done (
            true,
            record (put_handle f (record h {
              file_data = some (copy_into c f.cur_seek size buf);
              flush_required = true;
            })) { cur_seek = f.cur_seek + size },
            e,
          )
    unfolding write_file
    write-ready size buf pos fit =
        let nz : (size == 0) ≡ false = ground arith in
        let (inside, small) = in_range size fit in
        rw (r.mounted, nz, r.opened, r.handle, r.signed, r.current, r.contents, inside, small)

  -- The load leaves `gmnt` and the entry alone, and where it had to read, the contents are no longer
  -- than the size that it was given.
  abbrev pub Read : (limit : ℕ) → Handler P → Env P → Bool × Handler P × Env P → Type 0
  Read limit h e (ok, h', e') =
      (e'.mounted ≡ e.mounted)
      × (h'.entry ≡ h.entry)
      × (h.refresh_req ≡ true → ok ≡ true → h'.file_data_size ≤ limit)

  alloc_from-mounted :
      (answers : List (Option Chunk)) (e : Env P) → (alloc_from e answers).1.mounted ≡ e.mounted
  alloc_from-mounted [] e = refl
  alloc_from-mounted (none ∷ answers) e = refl
  alloc_from-mounted (some c ∷ answers) e = refl

  ensure_chunk-mounted : (o : Option Chunk) (e : Env P) → (ensure_chunk o e).1.mounted ≡ e.mounted
  ensure_chunk-mounted none e = alloc_from-mounted e.answers e
  ensure_chunk-mounted (some c) e = refl

  -- A write that succeeded: the file is ready, and the bytes stand behind the old position.
  abbrev pub Written : File P → (size : ℕ) → (buf : Chunk) → Bool × File P × Env P → Type 0
  Written f size buf (ok, f', e') =
      ok ≡ true
      → (h : Handler P) × (c : Chunk) × IsReady f' e' h c
        × (f.cur_seek + size ≤ h.file_data_size)
        × (h.flush_required ≡ true)
        × ((i : ℕ) → i < size → c (f.cur_seek + i) ≡ buf i)

  module _ (bounded : IsBounded P) where
    load_into-Read :
        (h : Handler P) (limit : ℕ) (e : Env P) (p : Option Chunk × Env P)
        → limit ≤ chunk_size
        → p.1.mounted ≡ e.mounted
        → Ends (load_into h limit p) (Read limit h e)
    load_into-Read h limit e (none, e') fit m = (m, refl, λ r t. cc)
    load_into-Read h limit e (some c, e') fit m =
        let few = bounded e'.disk h.entry limit in ground (arith, few, m)

    pub load-Read :
        (h : Handler P) (limit : ℕ) (e : Env P)
        → limit ≤ chunk_size
        → Ends (load h limit e) (Read limit h e)
    unfolding load
    load-Read h limit e fit =
        if_cases (λ m. Ends m (Read limit h e)) (not (is_some h.file_data) || h.refresh_req)
          (λ t.
            load_into-Read h limit e (ensure_chunk h.file_data e) fit
              (ensure_chunk-mounted h.file_data e))
          (λ t. (refl, refl, λ r u. ground (arith, t, r)))

    write_loaded-Written :
        (others : ℕ) (f : File P) (size : ℕ) (buf : Chunk) (x : Bool × Handler P × Env P)
        → f.closed ≡ false
        → x.2.mounted ≡ true
        → IsLoaded others x
        → Ends (write_loaded f size buf x) (Written f size buf)
    write_loaded-Written others f size buf (ok, h, e) o m (s, l, fresh) =
        let W = λ (m : Exec (Bool × File P × Env P)). Ends m (Written f size buf) in
        if_cases W (not ok || out_of_range h f.cur_seek size) (λ t q. cc)
          (λ t. elim (Option-cases h.file_data) [
            | inl p ↦ absurd (ground (arith, t, p, s.fresh, fresh))
            | inr (c, p) ↦
                let fit : f.cur_seek + size ≤ h.file_data_size = ground (arith, t) in
                let small : ltb chunk_size (f.cur_seek + size) ≡ false =
                  ground (arith, fit, s.fits) in
                rw (p, small)
                  (λ q. (
                    record h {
                      file_data = some (copy_into c f.cur_seek size buf);
                      flush_required = true;
                    },
                    copy_into c f.cur_seek size buf,
                    record {
                      mounted = m;
                      opened = o;
                      handle = refl;
                      signed = s.signed;
                      contents = refl;
                      current = ground (arith, t, fresh);
                      fits = s.fits;
                    },
                    fit,
                    refl,
                    λ i inside. copied c f.cur_seek size buf i inside,
                  ))
          ])

    pub write_file-Written :
        (others : ℕ) (f : File P) (size : ℕ) (buf : Chunk) (e : Env P)
        → IsOpen others false f e
        → 0 < size
        → Ends (write_file f size buf e) (Written f size buf)
    unfolding write_file
    write_file-Written others f size buf e o pos =
        let W = λ (m : Exec (Bool × File P × Env P)). Ends m (Written f size buf) in
        if_cases W (not e.mounted) (λ t q. cc)
          (λ m.
            if_cases W (size == 0) (λ t. absurd (ground arith))
              (λ t.
                if_cases W f.closed (λ u q. cc)
                  (λ u. with_handle_lem W f.handle (done (false, f, e)) _ o.0 (λ h p s.
                    Ends-bind (Written f size buf) (load h chunk_size e) (write_loaded f size buf)
                      (Ends-both (IsLoaded others) (Read chunk_size h e) (load h chunk_size e)
                        (load-IsLoaded bounded others h chunk_size e (omega arith) s (rw p at o.1))
                        (load-Read h chunk_size e (omega arith)))
                      (λ x (l, k).
                        write_loaded-Written others f size buf x u (k.0 ∙ ground (arith, m)) l)))))
