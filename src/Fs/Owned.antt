-- ===== src/Fs/Owned.antt =====
-- Kernel/drivers/core/fs.c: a file from `fs_open` to `fs_close`, and the memory that it holds.
use aos.Base.{ℕ, ◌+◌, ◌≤◌, ◌≡◌, refl, arith, true, false, not, leb}
use aos.Base.{List, [], ◌∷◌, Option, none, some, length, if_cases, Exec, done, fault, ◌>>=◌}
use aos.Base.{All, Ends, Ends-bind}
use aos.Fs.{Pbfs, Chunk, Handler, File, Env, SeekMode, chunk_size, alloc, free}
use aos.Fs.{read_file, write_file, flush_file, seek_file}
use aos.Fs.Open.{new_handler, first_load, open_handle, open_file, open_entry, fs_open}
use aos.Fs.Open.{free_handle, fs_close}
use aos.Fs.Sound.{IsBounded, chunks, owned, IsHandled, IsOpen, alloc_from_lem}
use aos.Fs.Kept.{Keeps, read_file-Keeps, write_file-Keeps, seek_file-Keeps, flush_file-Keeps}

-- A call on an open file.
pub data Call : Type 0 where
  read : (size : ℕ) → Call
  write : (size : ℕ) → Chunk → Call
  seek : (seek_to : ℕ) → SeekMode → Call
  flush : Call

-- No more than a chunk is read at once.
abbrev pub IsShort : Call → Type 0
IsShort (read size) = size ≤ chunk_size
IsShort (write size buf) = Unit {0}
IsShort (seek seek_to mode) = Unit {0}
IsShort flush = Unit {0}

module _ {P : Pbfs} where
  abbrev rest_of : {A : Type 0} → Exec (A × File P × Env P) → Exec (File P × Env P)
  rest_of {A} m = m >>= λ (x : A × File P × Env P). done (x.1, x.2)

  abbrev step : Call → File P → Env P → Exec (File P × Env P)
  step (read size) f e = rest_of (read_file f size e)
  step (write size buf) f e = rest_of (write_file f size buf e)
  step (seek seek_to mode) f e = rest_of (seek_file f seek_to mode e)
  step flush f e = rest_of (flush_file f e)

  -- The calls one after the other, whatever they answer.
  unfoldable pub run : List Call → File P → Env P → Exec (File P × Env P)
  run [] f e = done (f, e)
  run (c ∷ calls) f e = step c f e >>= λ (f', e'). run calls f' e'

  -- A file is opened, used and closed.
  abbrev used : List Call → Option (File P) × Env P → Exec (Env P)
  used calls (none, e) = done e
  used calls (some f, e) = run calls f e >>= λ (f', e'). fs_close f' e'

  abbrev pub use_file : (path : List ℕ) → List Call → Env P → Exec (Env P)
  use_file path calls e = fs_open path e >>= used calls

  rest_of-Ends :
      {A : Type 0} (others : ℕ) (m : Exec (A × File P × Env P))
      → Ends m (Keeps others false)
      → Ends (rest_of m) (λ (f, e). IsOpen others false f e)
  rest_of-Ends others (done (r, f, e)) h = h
  rest_of-Ends others fault h = h

  abbrev Opened : (others : ℕ) → Option (File P) × Env P → Type 0
  Opened others (none, e) = e.live ≡ others
  Opened others (some f, e) = IsOpen others false f e

  free_handle-live :
      (others : ℕ) (o : Option (Handler P)) (e : Env P)
      → IsHandled o
      → e.live ≡ others + owned o
      → (free (free_handle o e)).live ≡ others
  free_handle-live others none e s l = absurd s
  free_handle-live others (some h) e s l = ground (arith, l, s.signed)

  fs_close-live :
      (others : ℕ) (f : File P) (e : Env P)
      → IsOpen others false f e
      → Ends (fs_close f e) (λ e'. e'.live ≡ others)
  unfolding fs_close
  fs_close-live others f e o = rw o.2 (
      Ends-bind (λ e'. e'.live ≡ others) (flush_file (record f { closed = true }) e)
        (λ (ok, f', e'). done (free (free_handle f'.handle e')))
        (flush_file-Keeps others true (record f { closed = true }) e (o.0, o.1, refl))
        (λ (ok, f', e') o'. free_handle-live others f'.handle e' o'.0 o'.1))

  module _ (bounded : IsBounded P) (others : ℕ) where
    step-IsOpen :
        (c : Call) (f : File P) (e : Env P)
        → IsShort c
        → IsOpen others false f e
        → Ends (step c f e) (λ (f', e'). IsOpen others false f' e')
    step-IsOpen (read size) f e fit o =
        rest_of-Ends others _ (read_file-Keeps others false bounded f size e fit o)
    step-IsOpen (write size buf) f e fit o =
        rest_of-Ends others _ (write_file-Keeps others false bounded f size buf e o)
    step-IsOpen (seek seek_to mode) f e fit o =
        rest_of-Ends others _ (seek_file-Keeps others false bounded f seek_to mode e o)
    step-IsOpen flush f e fit o = rest_of-Ends others _ (flush_file-Keeps others false f e o)

    run-IsOpen :
        (calls : List Call) (f : File P) (e : Env P)
        → All IsShort calls
        → IsOpen others false f e
        → Ends (run calls f e) (λ (f', e'). IsOpen others false f' e')
    unfolding run
    run-IsOpen [] f e fit o = o
    run-IsOpen (c ∷ calls) f e fit o =
        Ends-bind (λ (f', e'). IsOpen others false f' e') (step c f e) (λ (f', e'). run calls f' e')
          (step-IsOpen c f e fit.0 o) (λ (f', e') o'. run-IsOpen calls f' e' fit.1 o')

    first_load-Opened :
        (entry : P.Entry) (path : List ℕ) (p : Option Chunk × Env P)
        → p.1.live ≡ others + 2 + chunks p.0
        → Ends (first_load (new_handler entry path) p) (Opened others)
    first_load-Opened entry path (none, e) l = ground (arith, l)
    first_load-Opened entry path (some c, e) l =
        let fit = bounded e.disk entry chunk_size in ground (arith, fit)

    open_handle-Opened :
        (entry : P.Entry) (path : List ℕ) (p : Option Chunk × Env P)
        → p.1.live ≡ others + 1 + chunks p.0
        → Ends (open_handle entry path p) (Opened others)
    open_handle-Opened entry path (none, e) l = omega (arith, l)
    open_handle-Opened entry path (some c, e) l =
        first_load-Opened entry path (alloc e)
          (alloc_from_lem (others + 2) e.answers e (omega (arith, l)))

    open_file-Opened :
        (entry : P.Entry) (path : List ℕ) (p : Option Chunk × Env P)
        → p.1.live ≡ others + chunks p.0
        → Ends (open_file entry path p) (Opened others)
    open_file-Opened entry path (none, e) l = omega (arith, l)
    open_file-Opened entry path (some c, e) l =
        open_handle-Opened entry path (alloc e) (alloc_from_lem (others + 1) e.answers e l)

    open_entry-Opened :
        (o : Option P.Entry) (path : List ℕ) (e : Env P)
        → e.live ≡ others
        → Ends (open_entry o path e) (Opened others)
    open_entry-Opened none path e l = l
    open_entry-Opened (some entry) path e l =
        open_file-Opened entry path (alloc e) (alloc_from_lem others e.answers e l)

    fs_open-Opened :
        (path : List ℕ) (e : Env P) → e.live ≡ others → Ends (fs_open path e) (Opened others)
    unfolding fs_open
    fs_open-Opened path e l =
        if_cases (λ m. Ends m (Opened others)) (not e.mounted) (λ t. l)
          (λ t.
            if_cases (λ m. Ends m (Opened others)) (leb P.max_path_len (length path)) (λ u. l)
              (λ u. open_entry-Opened (P.find_entry e.disk path) path e l))

    used-live :
        (calls : List Call)
        → All IsShort calls
        → (x : Option (File P) × Env P) → Opened others x
        → Ends (used calls x) (λ e'. e'.live ≡ others)
    used-live calls fit (none, e) o = o
    used-live calls fit (some f, e) o =
        Ends-bind (λ e'. e'.live ≡ others) (run calls f e) (λ (f', e'). fs_close f' e')
          (run-IsOpen calls f e fit o) (λ (f', e') o'. fs_close-live others f' e' o')

    -- On a PBFS that puts no more into a buffer than the size it is given, a file that is opened,
    -- used by any calls of which none reads more than a chunk, and closed, causes no access outside
    -- of a chunk or through NULL, and gives back all the memory that it took: also where memory runs
    -- out or PBFS fails.
    pub use_file_lem :
        (path : List ℕ) (calls : List Call) (e : Env P)
        → All IsShort calls
        → e.live ≡ others
        → Ends (use_file path calls e) (λ e'. e'.live ≡ others)
    use_file_lem path calls e fit l =
        Ends-bind (λ e'. e'.live ≡ others) (fs_open path e) (used calls) (fs_open-Opened path e l)
          (λ x o. used-live calls fit x o)
