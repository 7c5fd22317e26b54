-- ===== src/Fs/Sound.antt =====
-- Kernel/drivers/core/fs.c: what holds of an open file between two calls, and that the calls keep it.
use aos.Base.{ℕ, ◌+◌, ◌≤◌, ◌≡◌, arith, Bool, true, false, not, ◌||◌}
use aos.Base.{List, [], ◌∷◌, Option, none, some, if_cases, done, ◌>>=◌}
use aos.Base.{Ends}
use aos.Fs.{Pbfs, Chunk, Answer, Handler, File, Env, fs_sign, chunk_size, is_some, load}
use aos.Fs.{load_into, ensure_chunk, loaded, alloc_from}

-- PBFS puts no more into a buffer than the size that it is given.
abbrev pub IsBounded : Pbfs → Type 0
IsBounded P = (d : P.Disk) (entry : P.Entry) (size : ℕ) → (P.read_file d entry size).size ≤ size

abbrev pub chunks : Option Chunk → ℕ
chunks none = 0
chunks (some c) = 1

module _ {P : Pbfs} where
  pub record IsSound (h : Handler P) : Type 0 where
    pub signed : h.sign ≡ fs_sign
    pub fits : h.file_data_size ≤ chunk_size
    pub empty : is_some h.file_data ≡ false → h.file_data_size ≡ 0
    pub fresh : h.refresh_req ≡ false → is_some h.file_data ≡ true
    pub kept : h.flush_required ≡ true → h.refresh_req ≡ false

  -- The memory that a file holds: itself, the handle and the chunk.
  abbrev pub owned : Option (Handler P) → ℕ
  owned none = 1
  owned (some h) = 2 + chunks h.file_data

  abbrev pub IsHandled : Option (Handler P) → Type 0
  IsHandled none = ⊥
  IsHandled (some h) = IsSound h

  -- The handle is sound, and besides what the file holds, `others` allocations are live.
  abbrev pub IsOpen : (others : ℕ) (closed : Bool) → File P → Env P → Type 0
  IsOpen others closed f e =
      IsHandled f.handle × (e.live ≡ others + owned f.handle) × (f.closed ≡ closed)

  -- What the load leaves.
  abbrev pub IsLoaded : (others : ℕ) → Bool × Handler P × Env P → Type 0
  IsLoaded others (ok, h, e) =
      IsSound h × (e.live ≡ others + owned (some h)) × (ok ≡ true → h.refresh_req ≡ false)

  pub alloc_from_lem :
      (n : ℕ) (answers : List (Option Chunk)) (e : Env P)
      → e.live ≡ n
      → (alloc_from e answers).1.live ≡ n + chunks (alloc_from e answers).0
  alloc_from_lem n [] e l = omega (arith, l)
  alloc_from_lem n (none ∷ answers) e l = omega (arith, l)
  alloc_from_lem n (some c ∷ answers) e l = omega (arith, l)

  ensure_chunk_lem :
      (others : ℕ) (o : Option Chunk) (e : Env P)
      → e.live ≡ others + 2 + chunks o
      → (chunks o ≤ chunks (ensure_chunk o e).0)
        × ((ensure_chunk o e).1.live ≡ others + 2 + chunks (ensure_chunk o e).0)
  ensure_chunk_lem others none e l =
      (omega arith, alloc_from_lem (others + 2) e.answers e (omega (arith, l)))
  ensure_chunk_lem others (some c) e l = (omega arith, l)

  module _ (bounded : IsBounded P) (others : ℕ) where
    loaded-IsSound :
        (h : Handler P) (c : Chunk) (a : Answer) (e : Env P)
        → IsSound h
        → h.flush_required ≡ false
        → a.size ≤ chunk_size
        → e.live ≡ others + 3
        → Ends (loaded h c a >>= λ (ok, h'). done (ok, h', e)) (IsLoaded others)
    loaded-IsSound h c a e s clean fit l = ground arith

    load_into-IsLoaded :
        (h : Handler P) (limit : ℕ) (p : Option Chunk × Env P)
        → limit ≤ chunk_size
        → IsSound h
        → h.flush_required ≡ false
        → chunks h.file_data ≤ chunks p.0
        → p.1.live ≡ others + 2 + chunks p.0
        → Ends (load_into h limit p) (IsLoaded others)
    load_into-IsLoaded h limit (none, e) fit s clean same l = (s, omega (arith, l, same), λ t. cc)
    load_into-IsLoaded h limit (some c, e) fit s clean same l =
        loaded-IsSound h c (P.read_file e.disk h.entry limit) e s clean
          (omega (arith, fit, bounded e.disk h.entry limit)) (omega (arith, l))

    pub load-IsLoaded :
        (h : Handler P) (limit : ℕ) (e : Env P)
        → limit ≤ chunk_size
        → IsSound h
        → e.live ≡ others + owned (some h)
        → Ends (load h limit e) (IsLoaded others)
    unfolding load
    load-IsLoaded h limit e fit s l =
        if_cases (λ m. Ends m (IsLoaded others)) (not (is_some h.file_data) || h.refresh_req)
          (λ t.
            let (same, l') = ensure_chunk_lem others h.file_data e (omega (arith, l)) in
            load_into-IsLoaded h limit (ensure_chunk h.file_data e) fit s (ground (arith, t)) same
              l')
          (λ t. (s, l, λ u. ground (arith, t)))
