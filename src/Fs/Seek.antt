-- ===== src/Fs/Seek.antt =====
-- Kernel/drivers/core/fs.c: where `seek_file` ends.
use aos.Base.{ℕ, ◌+◌, ◌-◌, ◌%◌, ◌^◌, ◌≤◌, ◌≡◌, refl, arith, Bool, true, false, ltb}
use aos.Base.{Option, none, some, if◌then◌else◌, done, Bool-cases, inl, inr, ap, ◌∙◌}
use aos.Fs.{Pbfs, Chunk, Handler, File, Env, SeekMode, cur, end, set, chunk_size, put_handle}
use aos.Fs.{moved, seek_target, seek_loaded, seek_file}
use aos.Fs.Ready.{IsReady, target}

if_done {ℓ} :
    {A : Type ℓ} (t : Bool) (a b : A) → (if t then done a else done b) ≡ done (if t then a else b)
if_done true a b = refl
if_done false a b = refl

module _ {P : Pbfs} where
  -- The answer and the state for the position that a seek goes to.
  abbrev pub sought : File P → Env P → Option ℕ → Bool × File P × Env P
  sought f e none = (false, f, e)
  sought f e (some at) = (true, record f { cur_seek = at }, e)

  sought-target :
      (mode : SeekMode) (f : File P) (e : Env P) (size seek_to : ℕ)
      → f.cur_seek ≤ size
      → size ≤ chunk_size
      → (if ltb size seek_to
          then (false, f, e)
          else moved f size e (seek_target mode size f.cur_seek seek_to))
        ≡ sought f e (target mode size f.cur_seek seek_to)
  sought-target cur f e size seek_to inside fits =
      let room : (size + 2 ^ 64 - f.cur_seek) % 2 ^ 64 ≡ size - f.cur_seek = omega arith in
      elim (Bool-cases (ltb size seek_to)) [
        | inl t ↦ rw t (ground (arith, t))
        | inr t ↦
            let sum : (seek_to + f.cur_seek) % 2 ^ 64 ≡ f.cur_seek + seek_to =
              let le : seek_to ≤ size = ground (arith, t) in omega (arith, le) in
            rw (t, seek_target, room, sum) (ground (arith, t))
      ]
  sought-target end f e size seek_to inside fits = ground arith
  sought-target set f e size seek_to inside fits = ground arith

  -- On a file whose contents are loaded and that has its position in them, seek_file ends at the
  -- position that is asked for, from the start, the position or the end, where it lies within the
  -- contents, and else answers AOS_FALSE and leaves the position.
  pub seek_file_lem :
      (f : File P) (e : Env P) (h : Handler P) (c : Chunk) (mode : SeekMode) (seek_to : ℕ)
      → IsReady f e h c
      → f.cur_seek ≤ h.file_data_size
      → seek_file f seek_to mode e
        ≡ done (sought (put_handle f h) e (target mode h.file_data_size f.cur_seek seek_to))
  unfolding seek_file
  seek_file_lem f e h c mode seek_to r inside =
      let done_loading : seek_file f seek_to mode e ≡ seek_loaded f seek_to mode (true, h, e) =
        rw (r.mounted, r.opened, r.handle, r.signed, r.current, r.contents) in
      done_loading
      ∙ if_done (ltb h.file_data_size seek_to) _ _
      ∙ ap done (sought-target mode (put_handle f h) e h.file_data_size seek_to inside r.fits)
