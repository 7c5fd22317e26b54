-- ===== src/Fs/Kept.antt =====
-- Kernel/drivers/core/fs.c: the calls on an open file end without a fault and keep it sound.
use aos.Base.{ℕ, ◌+◌, ◌≤◌, ◌≡◌, refl, arith, Bool, true, false, not, ◌&&◌, ltb, ◌==◌}
use aos.Base.{Option, none, some, if◌then◌else◌, if_cases, Exec, done, ◌>>=◌}
use aos.Base.{Ends, Ends-bind}
use aos.Fs.{Pbfs, Chunk, Handler, File, Env, SeekMode, fs_sign, chunk_size}
use aos.Fs.{is_some, load, with_handle}
use aos.Fs.{read_loaded, read_file, write_loaded, write_file, flushed, update_from, flush_file}
use aos.Fs.{seek_loaded, seek_file}
use aos.Fs.Sound.{IsBounded, IsSound, owned, IsHandled, IsOpen, IsLoaded, load-IsLoaded}

module _ {P : Pbfs} where
  -- What holds of the call on each sound handle holds behind the tests on the handle.
  pub with_handle_lem :
      {A : Type 0} (Q : A → Type 0) (o : Option (Handler P)) (refused : A) (k : Handler P → A)
      → IsHandled o
      → ((h : Handler P) → o ≡ some h → IsSound h → Q (k h))
      → Q (with_handle o refused k)
  with_handle_lem Q none refused k s f = absurd s
  with_handle_lem Q (some h) refused k s f =
      if_cases Q (h.sign == fs_sign) (λ t. f h refl s) (λ t. absurd (ground (arith, t, s.signed)))

  module _ (others : ℕ) (closed : Bool) where
    -- The answer is any, and the file is as it should be.
    abbrev pub Keeps {ℓ} : {A : Type ℓ} → A × File P × Env P → Type 0
    Keeps (r, f, e) = IsOpen others closed f e

    read_loaded-Keeps :
        (f : File P) (size : ℕ) (x : Bool × Handler P × Env P)
        → f.closed ≡ closed
        → IsLoaded others x
        → Ends (read_loaded f size x) Keeps
    read_loaded-Keeps f size (ok, h, e) q (s, l, fresh) = ground (arith, s.fits, s.fresh)

    write_loaded-Keeps :
        (f : File P) (size : ℕ) (buf : Chunk) (x : Bool × Handler P × Env P)
        → f.closed ≡ closed
        → IsLoaded others x
        → Ends (write_loaded f size buf x) Keeps
    write_loaded-Keeps f size buf (ok, h, e) q (s, l, fresh) = ground (arith, s.fits, s.fresh)

    seek_loaded-Keeps :
        (f : File P) (seek_to : ℕ) (mode : SeekMode) (x : Bool × Handler P × Env P)
        → f.closed ≡ closed
        → IsLoaded others x
        → Ends (seek_loaded f seek_to mode x) Keeps
    seek_loaded-Keeps f seek_to mode (ok, h, e) q (s, l, fresh) = ground arith

    flushed-Keeps :
        (f : File P) (h : Handler P) (e : Env P) (a : Bool × P.Entry × P.Disk)
        → f.closed ≡ closed
        → IsSound h
        → e.live ≡ others + owned (some h)
        → IsOpen others closed (flushed f h e a).1 (flushed f h e a).2
    flushed-Keeps f h e (true, entry, disk) q s l = ground arith
    flushed-Keeps f h e (false, entry, disk) q s l = ground arith

    live_of :
        (f : File P) (h : Handler P) (e : Env P)
        → f.handle ≡ some h
        → IsOpen others closed f e
        → e.live ≡ others + owned (some h)
    live_of f h e p o = rw p at o.1

    -- So is a call that is made on a sound handle, where it keeps the file.
    handled :
        {A : Type 0} (r : A) (f : File P) (e : Env P) (k : Handler P → Exec (A × File P × Env P))
        → IsOpen others closed f e
        → ((h : Handler P) → f.handle ≡ some h → IsSound h → Ends (k h) Keeps)
        → Ends (with_handle f.handle (done (r, f, e)) k) Keeps
    handled {A} r f e k o kept =
        with_handle_lem (λ (m : Exec (A × File P × Env P)). Ends m Keeps) f.handle (done (r, f, e))
          k o.0 kept

    -- A file without a chunk has no contents, so that a flush finds what it writes.
    updates :
        (h : Handler P) (e : Env P) (o : Option Chunk)
        → (is_some o ≡ false → h.file_data_size ≡ 0)
        → Ends (update_from h e o) (λ a. Unit {0})
    updates h e none empty = ground (arith, empty refl)
    updates h e (some c) empty = tt

    -- A call that returns at once keeps the file.
    pub guarded {ℓ} :
        {A : Type ℓ} (t : Bool) (r : A) (f : File P) (e : Env P) (m : Exec (A × File P × Env P))
        → IsOpen others closed f e
        → Ends m Keeps
        → Ends (if t then done (r, f, e) else m) Keeps
    guarded true r f e m o k = o
    guarded false r f e m o k = k

    flush_body-Keeps :
        (f : File P) (h : Handler P) (e : Env P)
        → f.handle ≡ some h
        → IsSound h
        → IsOpen others closed f e
        → Ends
            (if not h.flush_required
              then done (true, f, e)
              else if not (is_some h.file_data) && ltb 0 h.file_data_size
              then done (false, f, e)
              else (do answer ← update_from h e h.file_data; done (flushed f h e answer)))
            Keeps
    flush_body-Keeps f h e p s o = guarded (not h.flush_required) true f e _ o (
        guarded (not (is_some h.file_data) && ltb 0 h.file_data_size) false f e _ o (
          Ends-bind Keeps (update_from h e h.file_data) (λ answer. done (flushed f h e answer))
            (updates h e h.file_data s.empty)
            (λ a t. flushed-Keeps f h e a o.2 s (live_of f h e p o))))

    pub flush_file-Keeps :
        (f : File P) (e : Env P) → IsOpen others closed f e → Ends (flush_file f e) Keeps
    unfolding flush_file
    flush_file-Keeps f e o =
        guarded (not e.mounted) false f e _ o
          (handled false f e _ o (λ h p s. flush_body-Keeps f h e p s o))

    module _ (bounded : IsBounded P) where
      pub read_file-Keeps :
          (f : File P) (size : ℕ) (e : Env P)
          → size ≤ chunk_size
          → IsOpen others closed f e
          → Ends (read_file f size e) Keeps
      unfolding read_file
      read_file-Keeps f size e fit o = guarded (not e.mounted) none f e _ o (
          guarded (size == 0) (some (λ i. 0)) f e _ o (
            guarded f.closed none f e _ o (
              handled none f e _ o (λ h p s.
                Ends-bind Keeps (load h size e) (read_loaded f size)
                  (load-IsLoaded bounded others h size e fit s (live_of f h e p o))
                  (λ x l. read_loaded-Keeps f size x o.2 l)))))

      pub write_file-Keeps :
          (f : File P) (size : ℕ) (buf : Chunk) (e : Env P)
          → IsOpen others closed f e
          → Ends (write_file f size buf e) Keeps
      unfolding write_file
      write_file-Keeps f size buf e o = guarded (not e.mounted) false f e _ o (
          guarded (size == 0) true f e _ o (
            guarded f.closed false f e _ o (
              handled false f e _ o (λ h p s.
                Ends-bind Keeps (load h chunk_size e) (write_loaded f size buf)
                  (load-IsLoaded bounded others h chunk_size e (omega arith) s (live_of f h e p o))
                  (λ x l. write_loaded-Keeps f size buf x o.2 l)))))

      pub seek_file-Keeps :
          (f : File P) (seek_to : ℕ) (mode : SeekMode) (e : Env P)
          → IsOpen others closed f e
          → Ends (seek_file f seek_to mode e) Keeps
      unfolding seek_file
      seek_file-Keeps f seek_to mode e o = guarded (not e.mounted) false f e _ o (
          guarded f.closed false f e _ o (
            handled false f e _ o (λ h p s.
              Ends-bind Keeps (load h chunk_size e) (seek_loaded f seek_to mode)
                (load-IsLoaded bounded others h chunk_size e (omega arith) s (live_of f h e p o))
                (λ x l. seek_loaded-Keeps f seek_to mode x o.2 l))))
