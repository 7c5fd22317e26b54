-- ===== src/Fs.antt =====
-- Kernel/drivers/core/fs.c: open files over PBFS, whose sources are not in the repository and which
-- is a parameter. A file keeps its contents in a chunk of 4 KiB, which is loaded when it is missing
-- or has to be refreshed. Chunks and buffers are functions from an index to a byte.
pub mod Open
pub mod Sound
pub mod Kept
pub mod Owned
pub mod Ready
pub mod Again
pub mod Short
pub mod Seek
mod Tests
use aos.Base.{
  ℕ, zero, suc, ◌+◌, ◌-◌, ◌*◌, ◌%◌, ◌^◌, Bool, true, false, not, ◌&&◌, ◌||◌, ltb, leb, ◌==◌,
}
use aos.Base.{List, [], ◌∷◌, Option, none, some, length, if◌then◌else◌, Exec, done, fault, ◌>>=◌}

-- `AOS_FS_SIGN` and `AOS_FS_CHUNK_SIZE`.
abbrev pub fs_sign : ℕ
fs_sign = 0xA1519F19

abbrev pub chunk_size : ℕ
chunk_size = 0x1000

abbrev pub Chunk : Type 0
Chunk = ℕ → ℕ

-- What `pbfs_read_file_dmm` answers: whether it succeeded, and what it has put into the buffer.
pub record Answer : Type 0 where
  pub ok : Bool
  pub size : ℕ
  pub byte : Chunk

-- The calls of PBFS: `pbfs_find_entry`, `pbfs_read_file_dmm` and `pbfs_update_file_dmm`, and
-- `PBFS_MAX_PATH_LEN`. `update_file` answers whether it succeeded, the entry and the disk.
pub record Pbfs : Type 1 where
  pub Disk : Type 0
  pub Entry : Type 0
  pub max_path_len : ℕ
  pub find_entry : Disk → List ℕ → Option Entry
  pub read_file : Disk → Entry → (size : ℕ) → Answer
  pub update_file : Disk → Entry → Chunk → (size : ℕ) → Bool × Entry × Disk

-- `enum seek_mode`.
pub data SeekMode : Type 0 where
  cur end set : SeekMode

abbrev pub is_some : Option Chunk → Bool
is_some none = false
is_some (some c) = true

-- The first bytes of the chunk are those of the answer.
abbrev pub fill : Answer → Chunk → Chunk
fill a c i = if ltb i a.size then a.byte i else c i

-- `memcpy(chunk + at, buf, size)`.
abbrev pub copy_into : Chunk → (at size : ℕ) → (buf : Chunk) → Chunk
copy_into c at size buf i = if leb at i && ltb i (at + size) then buf (i - at) else c i

-- The contents from `at` on, an access outside of the chunk being a fault.
abbrev pub copy_from : Option Chunk → (at size : ℕ) → Exec Chunk
copy_from none at size = fault
copy_from (some c) at size = if ltb chunk_size (at + size) then fault else done (λ i. c (at + i))

abbrev pub copied_into : Option Chunk → (at size : ℕ) → Chunk → Exec Chunk
copied_into none at size buf = fault
copied_into (some c) at size buf =
    if ltb chunk_size (at + size) then fault else done (copy_into c at size buf)

-- The new position, where the mode allows it. `size - cur_seek` wraps.
abbrev pub seek_target : SeekMode → (size cur_seek seek_to : ℕ) → Option ℕ
seek_target cur size cur_seek seek_to =
    if ltb ((size + 2 ^ 64 - cur_seek) % 2 ^ 64) seek_to
    then none
    else some ((seek_to + cur_seek) % 2 ^ 64)
seek_target end size cur_seek seek_to = some (size - seek_to)
seek_target set size cur_seek seek_to = some seek_to

module _ (P : Pbfs) where
  -- `struct aos_dmm_handler`, less `metadata`, `permission_table` and the lock, which nothing reads.
  pub record Handler : Type 0 where
    pub sign : ℕ
    pub valid : Bool
    pub path : List ℕ
    pub entry : P.Entry
    pub file_data : Option Chunk
    pub file_data_size : ℕ
    pub refresh_req : Bool
    pub flush_required : Bool

  -- `struct aos_file`, less its lock and its functions.
  pub record File : Type 0 where
    pub handle : Option Handler
    pub cur_seek : ℕ
    pub closed : Bool

  -- `gmnt`, the disk, and the memory: what `avmf_alloc` answers for call after call, and how many
  -- allocations are live.
  pub record Env : Type 0 where
    pub mounted : Bool
    pub disk : P.Disk
    pub answers : List (Option Chunk)
    pub live : ℕ

module _ {P : Pbfs} where
  abbrev pub alloc_from : Env P → List (Option Chunk) → Option Chunk × Env P
  alloc_from e [] = (none, e)
  alloc_from e (none ∷ answers) = (none, record e { answers = answers })
  alloc_from e (some c ∷ answers) = (some c, record e { answers = answers; live = e.live + 1 })

  -- `avmf_alloc` and `avmf_free`.
  abbrev pub alloc : Env P → Option Chunk × Env P
  alloc e = alloc_from e e.answers

  abbrev pub free : Env P → Env P
  free e = record e { live = e.live - 1 }

  abbrev pub free_if : Option Chunk → Env P → Env P
  free_if none e = e
  free_if (some c) e = free e

  -- A chunk is allocated where there is none.
  abbrev pub ensure_chunk : Option Chunk → Env P → Option Chunk × Env P
  ensure_chunk none e = alloc e
  ensure_chunk (some c) e = (some c, e)

  -- What is read replaces the contents of the chunk, which is all the room there is.
  abbrev pub loaded : Handler P → Chunk → Answer → Exec (Bool × Handler P)
  loaded h c a =
      let h' = record h { file_data = some (fill a c); file_data_size = a.size } in
      if ltb chunk_size a.size
      then fault
      else if a.ok
      then done (true, record h' { refresh_req = false })
      else done (false, h')

  abbrev pub load_into :
      Handler P → (limit : ℕ) → Option Chunk × Env P → Exec (Bool × Handler P × Env P)
  load_into h limit (none, e) = done (false, h, e)
  load_into h limit (some c, e) = do
    (ok, h') ← loaded h c (P.read_file e.disk h.entry limit)
    done (ok, h', e)

  -- The block that `read_file`, `write_file` and `seek_file` start with: the contents are read if
  -- they are missing or have to be refreshed. `limit` is the size that PBFS is given.
  unfoldable pub load : Handler P → (limit : ℕ) → Env P → Exec (Bool × Handler P × Env P)
  load h limit e =
      if not (is_some h.file_data) || h.refresh_req
      then load_into h limit (ensure_chunk h.file_data e)
      else done (true, h, e)

  -- The tests on the handle: what is done where it is there and signed.
  abbrev pub with_handle {ℓ} : {A : Type ℓ} → Option (Handler P) → A → (Handler P → A) → A
  with_handle none refused k = refused
  with_handle (some h) refused k = if h.sign == fs_sign then k h else refused

  -- Does the range from the position on leave the contents?
  abbrev pub out_of_range : Handler P → (cur_seek size : ℕ) → Bool
  out_of_range h cur_seek size =
      ltb h.file_data_size cur_seek || ltb (h.file_data_size - cur_seek) size

  abbrev pub put_handle : File P → Handler P → File P
  put_handle f h = record f { handle = some h }

  -- `read_file` behind the load: the bytes, or `none` for `AOS_FALSE`.
  abbrev pub read_loaded :
      File P → (size : ℕ) → Bool × Handler P × Env P → Exec (Option Chunk × File P × Env P)
  read_loaded f size (ok, h, e) =
      if not ok || out_of_range h f.cur_seek size then done (none, put_handle f h, e) else (do
        buf ← copy_from h.file_data f.cur_seek size
        done (some buf, record (put_handle f h) { cur_seek = f.cur_seek + size }, e))

  unfoldable pub read_file : File P → (size : ℕ) → Env P → Exec (Option Chunk × File P × Env P)
  unfolding load
  read_file f size e =
      if not e.mounted
      then done (none, f, e)
      else if size == 0
      then done (some (λ i. 0), f, e)
      else if f.closed
      then done (none, f, e)
      else with_handle f.handle (done (none, f, e)) (λ h. load h size e >>= read_loaded f size)

  abbrev pub write_loaded :
      File P → (size : ℕ) → (buf : Chunk) → Bool × Handler P × Env P → Exec (Bool × File P × Env P)
  write_loaded f size buf (ok, h, e) =
      if not ok || out_of_range h f.cur_seek size then done (false, put_handle f h, e) else (do
        c ← copied_into h.file_data f.cur_seek size buf
        let h' = record h { file_data = some c; flush_required = true }
        done (true, record (put_handle f h') { cur_seek = f.cur_seek + size }, e))

  unfoldable pub write_file :
      File P → (size : ℕ) → (buf : Chunk) → Env P → Exec (Bool × File P × Env P)
  unfolding load
  write_file f size buf e =
      if not e.mounted
      then done (false, f, e)
      else if size == 0
      then done (true, f, e)
      else if f.closed
      then done (false, f, e)
      else with_handle f.handle (done (false, f, e))
          (λ h. load h chunk_size e >>= write_loaded f size buf)

  abbrev pub flushed : File P → Handler P → Env P → Bool × P.Entry × P.Disk → Bool × File P × Env P
  flushed f h e (false, entry, disk) =
      (false, put_handle f (record h { entry = entry }), record e { disk = disk })
  flushed f h e (true, entry, disk) = (
    true,
    put_handle f (record h {
      entry = entry;
      file_data = none;
      file_data_size = 0;
      flush_required = false;
      refresh_req = true;
    }),
    free_if h.file_data (record e { disk = disk }),
  )

  -- What goes to the disk: a file without contents gets one byte 0.
  abbrev pub update_from : Handler P → Env P → Option Chunk → Exec (Bool × P.Entry × P.Disk)
  update_from h e none =
      if h.file_data_size == 0 then done (P.update_file e.disk h.entry (λ i. 0) 1) else fault
  update_from h e (some c) = done (
      if h.file_data_size == 0
      then P.update_file e.disk h.entry (λ i. 0) 1
      else P.update_file e.disk h.entry c h.file_data_size)

  unfoldable pub flush_file : File P → Env P → Exec (Bool × File P × Env P)
  flush_file f e =
      if not e.mounted
      then done (false, f, e)
      else with_handle f.handle (done (false, f, e)) (λ h.
        if not h.flush_required
        then done (true, f, e)
        else if not (is_some h.file_data) && ltb 0 h.file_data_size
        then done (false, f, e)
        else (do answer ← update_from h e h.file_data; done (flushed f h e answer)))

  pub tell_file : File P → Env P → ℕ
  tell_file f e = if not e.mounted then 0 else if f.closed then 0 else f.cur_seek

  abbrev pub moved : File P → (size : ℕ) → Env P → Option ℕ → Bool × File P × Env P
  moved f size e none = (false, f, e)
  moved f size e (some sto) =
      if ltb size sto then (false, f, e) else (true, record f { cur_seek = sto }, e)

  abbrev pub seek_loaded :
      File P → (seek_to : ℕ) → SeekMode → Bool × Handler P × Env P → Exec (Bool × File P × Env P)
  seek_loaded f seek_to mode (ok, h, e) =
      let f' = put_handle f h in
      if not ok || ltb h.file_data_size seek_to
      then done (false, f', e)
      else done (moved f' h.file_data_size e (seek_target mode h.file_data_size f.cur_seek seek_to))

  unfoldable pub seek_file :
      File P → (seek_to : ℕ) → SeekMode → Env P → Exec (Bool × File P × Env P)
  unfolding load
  seek_file f seek_to mode e =
      if not e.mounted
      then done (false, f, e)
      else if f.closed
      then done (false, f, e)
      else with_handle f.handle (done (false, f, e))
          (λ h. load h chunk_size e >>= seek_loaded f seek_to mode)

  -- `aos_fs_init`: an active mount, by its disk, becomes the one that is used.
  pub fs_init : Option (Bool × P.Disk) → Env P → Env P
  fs_init none e = e
  fs_init (some (active, disk)) e = if active then record e { mounted = true; disk = disk } else e
