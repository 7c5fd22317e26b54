-- ===== src/Avmf/FreeList/Tests.antt =====
-- Kernel/mm/avmf.c: ranges put into a list of two nodes.
use aos.Base.{ℕ, ◌≡◌, refl, arith, true, false, [], ◌∷◌}
use aos.Avmf.{Range, Region, avmf_signature}
use aos.Avmf.FreeList.{free_list_append, put_alone, merges_prev, merges_next}
use aos.Avmf.FreeList.Append.{IsSound, Appended, free_list_append_lem, append_forgets}

abbrev node : ℕ → ℕ → ℕ → Range
node at base size = record { at = at; base = base; size = size }

-- Free are 0x1000 to 0x1fff and 0x4000 to 0x4fff.
abbrev two_nodes : Region
two_nodes = record {
  signature = avmf_signature;
  version = 1;
  base = 0x1000;
  limit = 0x9000;
  allocated_bytes = 0;
  free_list = node 8 0x1000 0x1000 ∷ node 16 0x4000 0x1000 ∷ [];
  free_count = 2;
  free_list_end = 16;
}

two_nodes-IsSound : IsSound two_nodes
two_nodes-IsSound = record {
  sound = refl;
  order = omega arith;
  count = refl;
  bounded = omega arith;
}

joins_both : free_list_append two_nodes (node 24 0x2000 0x2000) ≡ (
  true,
  record two_nodes { free_list = node 8 0x1000 0x4000 ∷ []; free_count = 1; free_list_end = 8 },
)
unfolding free_list_append merges_prev merges_next
joins_both = refl

-- Three nodes would stay two, and the count says one.
joins_next : free_list_append two_nodes (node 24 0x3000 0x1000) ≡ (
  true,
  record two_nodes {
    free_list = node 8 0x1000 0x1000 ∷ node 24 0x3000 0x2000 ∷ [];
    free_count = 1;
    free_list_end = 24;
  },
)
unfolding free_list_append merges_prev merges_next
joins_next = refl

refuses : free_list_append two_nodes (node 24 0x1800 0x1000) ≡ (false, two_nodes)
unfolding free_list_append
refuses = refl

free_list_append_lem_example :
    Appended two_nodes (node 24 0x3000 0x1000) (free_list_append two_nodes (node 24 0x3000 0x1000))
free_list_append_lem_example =
    free_list_append_lem two_nodes (node 24 0x3000 0x1000) (omega arith) (omega arith)
      two_nodes-IsSound

append_forgets_example :
    (free_list_append
      (free_list_append (put_alone two_nodes (node 8 0x4000 0x1000)) (node 24 0x3000 0x1000)).1
      (node 32 0x8000 0x100)).1.free_list
    ≡ node 32 0x8000 0x100 ∷ []
append_forgets_example =
    append_forgets two_nodes (node 8 0x4000 0x1000) (node 24 0x3000 0x1000) (node 32 0x8000 0x100)
      refl (omega arith) (omega arith) refl (omega arith) (omega arith) (omega arith)
