-- ===== src/Avmf/Phys/Tests.antt =====
-- Kernel/mm/avmf.c: the physical allocator on two small regions, one of them not sound.
use aos.Base.{◌≡◌, refl, arith}
use aos.Base.{[], ◌∷◌, done, Ends, All}
use aos.Avmf.{Region, avmf_signature, align4k}
use aos.Avmf.Bitmap.{Bitmap, used, mark, bitmap_set, bitmap_test}
use aos.Avmf.Bitmap.Laws.{IsBytes, mark-IsBytes}
use aos.Avmf.Phys.{Phys, alloc_page_in, alloc_phys_page, first_free, free_phys_page}
use aos.Avmf.Phys.{alloc_phys_contiguous, free_phys_contiguous, find_run, set_run, alloc_run_in}
use aos.Avmf.Phys.Sets.{Fits}
use aos.Avmf.Phys.Alloc.{Allocated, alloc_phys_page_lem}
use aos.Avmf.Phys.Free.{Gave, free_phys_page_lem}
use aos.Avmf.Phys.AllocRun.{AllocatedRun, alloc_phys_contiguous_lem}
use aos.Avmf.Phys.FreeRun.{FreedRun, free_phys_contiguous_lem}
use aos.Avmf.Phys.RoundTrip.{Restored, free-alloc_page, free-alloc_contiguous}

abbrev broken : Region
broken = record {
  signature = 7;
  version = 1;
  base = 0;
  limit = 4096;
  allocated_bytes = 0;
  free_list = [];
  free_count = 0;
  free_list_end = 0;
}

-- Pages 2, 3, 4 and 5.
abbrev four_pages : Region
four_pages = record {
  signature = avmf_signature;
  version = 1;
  base = 0x2000;
  limit = 0x6000;
  allocated_bytes = 0;
  free_list = [];
  free_count = 0;
  free_list_end = 0;
}

abbrev nothing_taken : Bitmap
nothing_taken i = 0

-- Page 3 is taken.
abbrev start : Phys
unfolding mark
start = record { regions = broken ∷ four_pages ∷ []; bitmap = mark nothing_taken 3 }

start-IsBytes : IsBytes start.bitmap
unfolding start
start-IsBytes = mark-IsBytes nothing_taken 3 (λ i. omega arith)

start-Fits : All Fits start.regions
unfolding start
start-Fits = (λ h. omega arith, (λ h. omega arith, tt))

abbrev after_page : Phys
unfolding start
after_page = record {
  regions = broken ∷ record four_pages { allocated_bytes = 4096 } ∷ [];
  bitmap = mark start.bitmap 2;
}

takes_page_2 : alloc_phys_page start ≡ done (0x2000, after_page)
unfolding alloc_phys_page alloc_page_in first_free bitmap_test bitmap_set start used after_page
takes_page_2 = refl

abbrev after_two : Phys
unfolding start
after_two = record {
  regions = broken ∷ record four_pages { allocated_bytes = 8192 } ∷ [];
  bitmap = mark (mark start.bitmap 4) 5;
}

takes_pages_4_and_5 : alloc_phys_contiguous start 5000 ≡ done (0x4000, after_two)
unfolding alloc_phys_contiguous alloc_run_in find_run set_run bitmap_test bitmap_set start used
    after_two align4k
takes_pages_4_and_5 = refl

alloc_phys_page_lem_example : Ends (alloc_phys_page start) (Allocated start)
alloc_phys_page_lem_example = alloc_phys_page_lem start start-IsBytes start-Fits

free_phys_page_lem_example :
    Ends
      (free_phys_page start 0x3010)
      (λ s'. Gave start.regions start.bitmap 3 s'.regions s'.bitmap)
unfolding start
free_phys_page_lem_example = free_phys_page_lem start 0x3010 start-IsBytes start-Fits

alloc_phys_contiguous_lem_example : Ends (alloc_phys_contiguous start 5000) (AllocatedRun start 2)
alloc_phys_contiguous_lem_example =
    alloc_phys_contiguous_lem start 5000 start-IsBytes start-Fits (omega arith) (omega arith)

free_phys_contiguous_lem_example :
    Ends
      (free_phys_contiguous start 0x3000 1)
      (λ s'. FreedRun start.regions start.bitmap 3 1 s'.regions s'.bitmap)
free_phys_contiguous_lem_example =
    free_phys_contiguous_lem start 0x3000 1 start-IsBytes start-Fits (omega arith) (omega arith)

free-alloc_page_example : Ends (free_phys_page after_page 0x2000) (Restored start)
free-alloc_page_example =
    free-alloc_page start start-IsBytes start-Fits 0x2000 after_page takes_page_2 (omega arith)

free-alloc_contiguous_example : Ends (free_phys_contiguous after_two 0x4000 5000) (Restored start)
free-alloc_contiguous_example =
    free-alloc_contiguous start start-IsBytes start-Fits 5000 0x4000 after_two (omega arith)
      (omega arith) takes_pages_4_and_5 (omega arith)
