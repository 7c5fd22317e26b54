-- ===== src/Avmf/Bitmap.antt =====
-- Kernel/mm/avmf.c: `avmf_bitmap` and its three operations. The array has 64-bit words, of which
-- the code uses the low eight bits. An access past its end faults.
pub mod Laws
use aos.Base.{ℕ, ◌-◌, ◌/◌, ◌%◌, ◌^◌, Bool, bit_and, bit_or, ltb, ◌==◌, if◌then◌else◌}
use aos.Base.{Exec, done, fault}
use aos.Base.Bits.{has_bit}

-- `avmf_bitmap[i]` for each `i`.
abbrev pub Bitmap : Type 0
Bitmap = ℕ → ℕ

-- `BITMAP_SIZE`.
abbrev pub bitmap_size : ℕ
bitmap_size = 131072

abbrev pub update : Bitmap → ℕ → ℕ → Bitmap
update b i v j = if j == i then v else b j

-- Is the page marked as taken?
unfoldable pub used : Bitmap → ℕ → Bool
used b page_idx = has_bit (b (page_idx / 8)) (page_idx % 8)

unfoldable pub mark : Bitmap → ℕ → Bitmap
mark b page_idx = update b (page_idx / 8) (bit_or (b (page_idx / 8)) (2 ^ (page_idx % 8)))

unfoldable pub unmark : Bitmap → ℕ → Bitmap
unmark b page_idx =
    update b (page_idx / 8) (bit_and (b (page_idx / 8)) (2 ^ 64 - 1 - 2 ^ (page_idx % 8)))

-- The array holds the word of this page.
abbrev pub in_array : ℕ → Bool
in_array page_idx = ltb (page_idx / 8) bitmap_size

unfoldable pub bitmap_set : Bitmap → ℕ → Exec Bitmap
bitmap_set b page_idx = if in_array page_idx then done (mark b page_idx) else fault

unfoldable pub bitmap_clear : Bitmap → ℕ → Exec Bitmap
bitmap_clear b page_idx = if in_array page_idx then done (unmark b page_idx) else fault

unfoldable pub bitmap_test : Bitmap → ℕ → Exec Bool
bitmap_test b page_idx = if in_array page_idx then done (used b page_idx) else fault
