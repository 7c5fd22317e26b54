-- ===== src/Fs/Short.antt =====
-- Kernel/drivers/core/fs.c: a read that loads the contents asks PBFS for no more than it reads.
use aos.Base.{ℕ, ◌+◌, ◌<◌, ◌≤◌, ◌≡◌, refl, ap, arith, Bool, true, false, not, ◌||◌, ltb, ◌==◌}
use aos.Base.{Option, none, some, if_cases, Exec, done, ◌>>=◌, Ends, Ends-bind, Ends-both, Ends-map}
use aos.Base.{◌∙◌, Option-cases, inl, inr}
use aos.Fs.{Pbfs, Chunk, Handler, File, Env, set, chunk_size, copy_into}
use aos.Fs.{
  load, out_of_range, put_handle, read_loaded, read_file, write_file, flushed, flush_file,
  seek_file,
}
use aos.Fs.Sound.{IsBounded, IsOpen, IsLoaded, load-IsLoaded}
use aos.Fs.Kept.{with_handle_lem}
use aos.Fs.Ready.{IsReady, Read, load-Read, seek-ready, write-ready}
use aos.Fs.Again.{IsReady-move, flush-ready, free_if-disk}

module _ {P : Pbfs} where
  -- What a read leaves that had to load the contents of the entry.
  abbrev ShortRead : P.Entry → (cur_seek size : ℕ) → Option Chunk × File P × Env P → Type 0
  ShortRead entry cur_seek size (none, f', e') = Unit {0}
  ShortRead entry cur_seek size (some b, f', e') =
      (cur_seek ≡ 0)
      × (h : Handler P) × (c : Chunk) × IsReady f' e' h c
      × (h.file_data_size ≡ size)
      × (h.entry ≡ entry)

  refused :
      (entry : P.Entry) (cur_seek size : ℕ) (x : Option Chunk × File P × Env P)
      → ShortRead entry cur_seek size x
      → 0 < cur_seek
      → x.0 ≡ none
  refused entry cur_seek size (none, f', e') q behind = refl
  refused entry cur_seek size (some b, f', e') q behind = absurd (omega (arith, q.0))

  flushed-disk :
      (f : File P) (h : Handler P) (e : Env P) (a : Bool × P.Entry × P.Disk)
      → (flushed f h e a).2.disk ≡ a.2
  flushed-disk f h e (true, entry, disk) = free_if-disk h.file_data (record e { disk = disk })
  flushed-disk f h e (false, entry, disk) = refl

  read_loaded-ShortRead :
      (others : ℕ) (h0 : Handler P) (e0 : Env P) (entry : P.Entry) (f : File P) (size : ℕ)
      (x : Bool × Handler P × Env P)
      → f.closed ≡ false
      → e0.mounted ≡ true
      → h0.refresh_req ≡ true
      → h0.entry ≡ entry
      → IsLoaded others x
      → Read size h0 e0 x
      → Ends (read_loaded f size x) (ShortRead entry f.cur_seek size)
  read_loaded-ShortRead others h0 e0 entry f size (ok, h, e) o m need q (s, l, fresh)
        (m', kept, few) =
      let W =
        λ (m : Exec (Option Chunk × File P × Env P)). Ends m (ShortRead entry f.cur_seek size) in
      if_cases W (not ok || out_of_range h f.cur_seek size) (λ t. tt)
        (λ t. elim (Option-cases h.file_data) [
          | inl p ↦ absurd (ground (arith, t, p, s.fresh, fresh))
          | inr (c, p) ↦
              let fit : f.cur_seek + size ≤ h.file_data_size = ground (arith, t) in
              let small : ltb chunk_size (f.cur_seek + size) ≡ false =
                ground (arith, fit, s.fits) in
              let short : h.file_data_size ≤ size = few need (ground (arith, t)) in
              rw (p, small)
                (
                  omega (arith, fit, short),
                  record h { file_data = some c },
                  c,
                  record {
                    mounted = m' ∙ m;
                    opened = o;
                    handle = refl;
                    signed = s.signed;
                    contents = refl;
                    current = fresh (ground (arith, t));
                    fits = s.fits;
                  },
                  omega (arith, fit, short),
                  kept ∙ q,
                )
        ])

  module _ (bounded : IsBounded P) (others : ℕ) (f : File P) (h : Handler P) (e : Env P) (size : ℕ)
      (o : IsOpen others false f e) (p : f.handle ≡ some h) (need : h.refresh_req ≡ true)
      (pos : 0 < size) (fit : size ≤ chunk_size) where
    read_file-ShortRead : Ends (read_file f size e) (ShortRead h.entry f.cur_seek size)
    unfolding read_file
    read_file-ShortRead =
        let W = λ (m : Exec (Option Chunk × File P × Env P)).
          Ends m (ShortRead h.entry f.cur_seek size) in
        if_cases W (not e.mounted) (λ t. tt)
          (λ m.
            if_cases W (size == 0) (λ t. absurd (ground arith))
              (λ t.
                if_cases W f.closed (λ u. tt)
                  (λ u. with_handle_lem W f.handle (done (none, f, e)) _ o.0 (λ h' p' s.
                    let same : h' ≡ h = cc in
                    Ends-bind (ShortRead h.entry f.cur_seek size) (load h' size e)
                      (read_loaded f size)
                      (Ends-both (IsLoaded others) (Read size h' e) (load h' size e)
                        (load-IsLoaded bounded others h' size e fit s (rw p' at o.1))
                        (load-Read bounded h' size e fit))
                      (λ x (l, k).
                        read_loaded-ShortRead others h' e h.entry f size x u (ground (arith, m))
                          (ap (λ (x : Handler P). x.refresh_req) same ∙ need)
                          (ap (λ (x : Handler P). x.entry) same) l k)))))

    -- On an open file whose contents have to be refreshed, a read of at most a chunk from a position
    -- behind the start is refused, whatever the file holds.
    pub read_refused : 0 < f.cur_seek → Ends (read_file f size e) (λ (r, f', e'). r ≡ none)
    read_refused behind =
        Ends-map (read_file f size e) (λ x q. refused h.entry f.cur_seek size x q behind)
          read_file-ShortRead

    -- Where such a read of some bytes succeeds, and the position is set to the start and bytes are
    -- written over the ones that were read, no more than as many, the flush after it gives PBFS as
    -- many bytes as were read for the whole file.
    pub short_read_cuts :
        (b : Chunk) (f' : File P) (e' : Env P) (n : ℕ) (buf : Chunk)
        → read_file f size e ≡ done (some b, f', e')
        → 0 < n
        → n ≤ size
        → Ends
            (do
              (ok, f1, e1) ← seek_file f' 0 set e'
              (ok', f2, e2) ← write_file f1 n buf e1
              flush_file f2 e2)
            (λ (r, f3, e3). (c : Chunk) × (e3.disk ≡ (P.update_file e'.disk h.entry c size).2))
    short_read_cuts b f' e' n buf read pos' few =
        let (z, h1, c, r, all, entry) = rw read at read_file-ShortRead in
        let f1 : File P = record (put_handle f' h1) { cur_seek = 0 } in
        let c2 = copy_into c 0 n buf in
        let h2 : Handler P = record h1 { file_data = some c2; flush_required = true } in
        let f2 : File P = record (put_handle f1 h2) { cur_seek = 0 + n } in
        let r2 : IsReady f2 e' h2 c2 = record {
          mounted = r.mounted;
          opened = r.opened;
          handle = refl;
          signed = r.signed;
          contents = refl;
          current = r.current;
          fits = r.fits;
        } in
        let given : (P.update_file e'.disk h1.entry c2 h1.file_data_size).2
            ≡ (P.update_file e'.disk h.entry c2 size).2 =
          rw (all, entry) in
        rw (seek-ready f' e' h1 c r 0 (omega arith)) (
          rw
            (write-ready f1 e' h1 c (IsReady-move f' e' h1 c 0 r) n buf pos'
              (omega (arith, all, few)))
            (rw (flush-ready f2 e' h2 c2 r2 refl (omega (arith, all, pos)))
              (c2, flushed-disk f2 h2 e' _ ∙ given)))
