-- ===== src/Fs/Tests.antt =====
-- Kernel/drivers/core/fs.c: files on a disk that holds one file.
use aos.Base.{ℕ, ◌+◌, ◌≡◌, refl, arith, true, false, min, List, [], ◌∷◌, Option, none, some}
use aos.Base.{done, ◌>>=◌, Ends, ap, sym}
use aos.Fs.{Pbfs, Chunk, Handler, File, Env, set, cur, put_handle}
use aos.Fs.{read_file, write_file, flush_file, seek_file, copy_into, fill}
use aos.Fs.Sound.{IsBounded, IsOpen}
use aos.Fs.Open.{new_handler}
use aos.Fs.Owned.{read, write, seek, flush, use_file, use_file_lem}
use aos.Fs.Ready.{IsReady, target}
use aos.Fs.Again.{Bytes, IsLawful, read_back, write-read_back, flush-read_back}
use aos.Fs.Short.{read_refused, short_read_cuts}
use aos.Fs.Seek.{seek_file_lem, sought}

-- The disk is the size and the bytes of the file.
abbrev one_file : Pbfs
one_file = record {
  Disk = ℕ × Chunk;
  Entry = ℕ;
  max_path_len = 256;
  find_entry = λ d path. some 7;
  read_file = λ d entry size. record { ok = true; size = min size d.0; byte = d.1 };
  update_file = λ d entry c size. (true, entry, (size, c));
}

one_file-IsBounded : IsBounded one_file
one_file-IsBounded d entry size = ground arith

one_file-IsLawful : IsLawful one_file
one_file-IsLawful d entry c size limit entry' d' q fit =
    let total : size ≡ d'.0 = ap (λ x. x.2.0) q in
    let same : c ≡ d'.1 = ap (λ x. x.2.1) q in
    (refl, ground (arith, total, fit), λ i inside. ap (λ (g : Chunk). g i) (sym same))

abbrev no_bytes : Chunk
no_bytes i = 0

abbrev env : List (Option Chunk) → ℕ → Env one_file
env answers live = record { mounted = true; disk = (100, λ i. i); answers = answers; live = live }

use_file_lem_example :
    Ends
      (use_file
        (47 ∷ [])
        (read 5 ∷ seek 1 set ∷ write 2 no_bytes ∷ flush ∷ [])
        (env (some no_bytes ∷ some no_bytes ∷ some no_bytes ∷ []) 9))
      (λ e'. e'.live ≡ 9)
use_file_lem_example =
    use_file_lem one_file-IsBounded 9 (47 ∷ [])
      (read 5 ∷ seek 1 set ∷ write 2 no_bytes ∷ flush ∷ [])
      (env (some no_bytes ∷ some no_bytes ∷ some no_bytes ∷ []) 9)
      (omega arith, (tt, (tt, (tt, tt)))) refl

-- A file whose 100 bytes are loaded, at its position 3.
abbrev handler : Handler one_file
handler = record (new_handler 7 (47 ∷ [])) {
  file_data = some (λ i. i);
  file_data_size = 100;
  refresh_req = false;
}

abbrev file : File one_file
file = record { handle = some handler; cur_seek = 3; closed = false }

file-IsReady : IsReady file (env [] 3) handler (λ i. i)
file-IsReady = record {
  mounted = refl;
  opened = refl;
  handle = refl;
  signed = refl;
  contents = refl;
  current = refl;
  fits = omega arith;
}

file-IsOpen : IsOpen 0 false file (env (some no_bytes ∷ []) 3)
file-IsOpen = (
  record {
    signed = refl;
    fits = omega arith;
    empty = λ q. cc;
    fresh = λ q. refl;
    kept = λ q. refl;
  },
  refl,
  refl,
)

-- The file after zeros were written over two bytes.
abbrev written : File one_file
written = record {
  handle = some (record handler {
    file_data = some (copy_into (λ i. i) 3 2 no_bytes);
    flush_required = true;
  });
  cur_seek = 5;
  closed = false;
}

abbrev env_3 : Env one_file
env_3 = env (some no_bytes ∷ []) 3

write_3 : write_file file 2 no_bytes env_3 ≡ done (true, written, env_3)
unfolding write_file
write_3 = refl

write-read_back_example :
    Ends (read_back written 3 2 env_3) (λ (r, g, e''). Bytes r 2 no_bytes × (g.cur_seek ≡ 3 + 2))
write-read_back_example =
    write-read_back one_file-IsBounded 0 file 2 no_bytes env_3 written env_3 file-IsOpen
      (omega arith) write_3

abbrev flushed_file : File one_file
flushed_file = record {
  handle = some (record handler {
    file_data = none;
    file_data_size = 0;
    flush_required = false;
    refresh_req = true;
  });
  cur_seek = 5;
  closed = false;
}

abbrev env_2 : Env one_file
env_2 = record {
  mounted = true;
  disk = (100, copy_into (λ i. i) 3 2 no_bytes);
  answers = some no_bytes ∷ [];
  live = 2;
}

flush_2 : flush_file written env_3 ≡ done (true, flushed_file, env_2)
unfolding flush_file
flush_2 = refl

flush-read_back_example :
    Ends
      (read_back flushed_file 3 2 env_2)
      (λ (r, g, e3). Bytes r 2 no_bytes × (g.cur_seek ≡ 3 + 2))
flush-read_back_example =
    flush-read_back one_file-IsBounded 0 file 2 no_bytes env_3 written env_3 file-IsOpen
      (omega arith) write_3 one_file-IsLawful flushed_file env_2 no_bytes [] flush_2 refl

abbrev handler_2 : Handler one_file
handler_2 = record handler { file_data = none; file_data_size = 0; refresh_req = true }

flushed_file-IsOpen : IsOpen 0 false flushed_file env_2
flushed_file-IsOpen = (
  record { signed = refl; fits = omega arith; empty = λ q. refl; fresh = λ q. cc; kept = λ q. cc },
  refl,
  refl,
)

read_refused_example : Ends (read_file flushed_file 4 env_2) (λ (r, f', e'). r ≡ none)
read_refused_example =
    read_refused one_file-IsBounded 0 flushed_file handler_2 env_2 4 flushed_file-IsOpen refl refl
      (omega arith) (omega arith) (omega arith)

-- The same file at its start, and a read of four bytes.
abbrev at_start : File one_file
at_start = record flushed_file { cur_seek = 0 }

at_start-IsOpen : IsOpen 0 false at_start env_2
at_start-IsOpen = (flushed_file-IsOpen.0, refl, refl)

abbrev four : Chunk
four = fill (one_file.read_file env_2.disk 7 4) no_bytes

abbrev read_four : File one_file
read_four = record {
  handle =
      some (record handler_2 { file_data = some four; file_data_size = 4; refresh_req = false });
  cur_seek = 4;
  closed = false;
}

abbrev env_read : Env one_file
env_read = record env_2 { answers = []; live = 3 }

read_4 : read_file at_start 4 env_2 ≡ done (some (λ i. four (0 + i)), read_four, env_read)
unfolding read_file
read_4 = refl

short_read_cuts_example :
    Ends
      (do
        (ok, f1, e1) ← seek_file read_four 0 set env_read
        (ok', f2, e2) ← write_file f1 2 no_bytes e1
        flush_file f2 e2)
      (λ (r, f3, e3). (c : Chunk) × (e3.disk ≡ (one_file.update_file env_read.disk 7 c 4).2))
short_read_cuts_example =
    short_read_cuts one_file-IsBounded 0 at_start handler_2 env_2 4 at_start-IsOpen refl refl
      (omega arith) (omega arith) (λ i. four (0 + i)) read_four env_read 2 no_bytes read_4
      (omega arith) (omega arith)

seek_file_lem_example :
    seek_file file 90 cur (env [] 3)
    ≡ done (sought (put_handle file handler) (env [] 3) (target cur 100 3 90))
seek_file_lem_example =
    seek_file_lem file (env [] 3) handler (λ i. i) cur 90 file-IsReady (omega arith)
