-- ===== src/Fs/Open.antt =====
-- Kernel/drivers/core/fs.c: `fs_open`, `fs_close`, and the files of the system.
use aos.Base.{ℕ, Bool, true, false, not, ◌||◌, ltb, leb, ◌==◌, List, Option, none, some}
use aos.Base.{length, if◌then◌else◌, Exec, done, fault, ◌>>=◌}
use aos.Fs.{Pbfs, Chunk, Handler, File, Env, fs_sign, chunk_size, alloc, free, free_if, fill}
use aos.Fs.{flush_file}

module _ {P : Pbfs} where
  abbrev pub new_handler : P.Entry → (path : List ℕ) → Handler P
  new_handler entry path = record {
    sign = fs_sign;
    valid = true;
    path = path;
    entry = entry;
    file_data = none;
    file_data_size = 0;
    refresh_req = true;
    flush_required = false;
  }

  abbrev pub new_file : Handler P → File P
  new_file h = record { handle = some h; cur_seek = 0; closed = false }

  -- The first load, where there is a chunk. What PBFS answers stays in it also if PBFS fails.
  abbrev pub first_load : Handler P → Option Chunk × Env P → Exec (Option (File P) × Env P)
  first_load h (none, e) = done (some (new_file h), e)
  first_load h (some c, e) =
      let a = P.read_file e.disk h.entry chunk_size in
      if ltb chunk_size a.size
      then fault
      else done (
        some (
            new_file (record h {
              file_data = some (fill a c);
              file_data_size = a.size;
              refresh_req = not a.ok;
            })),
        e,
      )

  abbrev pub open_handle :
      P.Entry → (path : List ℕ) → Option Chunk × Env P → Exec (Option (File P) × Env P)
  open_handle entry path (none, e) = done (none, free e)
  open_handle entry path (some handle, e) = first_load (new_handler entry path) (alloc e)

  abbrev pub open_file :
      P.Entry → (path : List ℕ) → Option Chunk × Env P → Exec (Option (File P) × Env P)
  open_file entry path (none, e) = done (none, e)
  open_file entry path (some file, e) = open_handle entry path (alloc e)

  abbrev pub open_entry : Option P.Entry → (path : List ℕ) → Env P → Exec (Option (File P) × Env P)
  open_entry none path e = done (none, e)
  open_entry (some entry) path e = open_file entry path (alloc e)

  -- A path is a text without its last byte 0.
  unfoldable pub fs_open : (path : List ℕ) → Env P → Exec (Option (File P) × Env P)
  fs_open path e =
      if not e.mounted
      then done (none, e)
      else if leb P.max_path_len (length path)
      then done (none, e)
      else open_entry (P.find_entry e.disk path) path e

  -- The handle goes, with the chunk where the signature is right.
  abbrev pub free_handle : Option (Handler P) → Env P → Env P
  free_handle none e = e
  free_handle (some h) e = free (if h.sign == fs_sign then free_if h.file_data e else e)

  -- `fs_close`. What `flush` answers is not looked at.
  unfoldable pub fs_close : File P → Env P → Exec (Env P)
  fs_close f e = if f.closed then done e else (do
    (ok, f', e') ← flush_file (record f { closed = true }) e
    done (free (free_handle f'.handle e')))

-- `fs_pbfs_sysfile_accessed` answers the address of a result of PBFS, memory filled with zeros, or
-- the model of the processor, where the boot loader has left information.
pub data SysfileAnswer : Type 0 where
  wrong_permissions allocation_failed no_sysinfo cpu_model : SysfileAnswer
  zeros : (size : ℕ) → SysfileAnswer

-- The flags of a file of the system: `enum fs_sysfile_types`.
abbrev pub sysfile_null : ℕ
sysfile_null = 1

abbrev pub sysfile_zero : ℕ
sysfile_zero = 2

abbrev pub sysfile_cpu : ℕ
sysfile_cpu = 3

-- `allocated` says whether `avmf_alloc` answers, `sysinfo` whether `kget_sysinfo` does.
pub sysfile_accessed :
    (read : Bool) (flags requested_size : ℕ) (allocated sysinfo : Bool) → SysfileAnswer
sysfile_accessed read flags requested_size allocated sysinfo =
    if not read
    then wrong_permissions
    else if flags == sysfile_null || flags == sysfile_zero
    then (if allocated then zeros requested_size else allocation_failed)
    else if flags == sysfile_cpu
    then (if sysinfo then cpu_model else no_sysinfo)
    else wrong_permissions
