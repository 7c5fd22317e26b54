-- ===== src/Acpi/Roots.antt =====
-- Kernel/drivers/core/acpi.c: the two kinds of root tables of `acpi_parse_rsdt`.
use aos.Base.{
  ℕ, zero, suc, ◌+◌, ◌-◌, ◌*◌, ◌/◌, ◌%◌, ◌^◌, ◌<◌, ◌≤◌, ◌≡◌, ◌∙◌, refl, sym, arith, true, false,
  leb,
}
use aos.Acpi.{Memory, le, virt, checksum}
use aos.Acpi.Tables.{
  Parse, ended, overrun, no_end, ◌>>=◌, Acpi, take_table, take_tables, table_length, parse_root,
  parse_rsdt, int_rounds,
}

-- The entries of 8 bytes from `e` on and those of 4 bytes from `e'` on name the same tables.
abbrev pub SameTables : Memory → (n e e' : ℕ) → Type 0
SameTables mem zero e e' = Unit {0}
SameTables mem (suc n) e e' = (le mem e 8 ≡ le mem e' 4) × SameTables mem n (e + 8) (e' + 4)

-- A root table with the right checksum, and as many entries of `width` bytes.
abbrev pub IsRoot : Memory → (width n root : ℕ) → Type 0
IsRoot mem width n root =
    (checksum mem root (table_length mem root) ≡ 0) × (table_length mem root ≡ 36 + width * n)

module _ (mem : Memory) where
  then_same :
      (width width' n e e' : ℕ) (p : Parse Acpi)
      → ((s : Acpi) → take_tables mem width n e s ≡ take_tables mem width' n e' s)
      → (p >>= λ s. take_tables mem width n e s) ≡ (p >>= λ s. take_tables mem width' n e' s)
  then_same width width' n e e' (ended s) h = h s
  then_same width width' n e e' overrun h = refl
  then_same width width' n e e' no_end h = refl

  tables_same :
      (n e e' : ℕ) (s : Acpi)
      → SameTables mem n e e'
      → take_tables mem 8 n e s ≡ take_tables mem 4 n e' s
  unfolding take_tables
  tables_same zero e e' s h = refl
  tables_same (suc n) e e' s h = rw h.0 (
      then_same 8 4 n (e + 8) (e' + 4) (take_table mem (virt (le mem e' 4)) s)
        (λ s'. tables_same n (e + 8) (e' + 4) s' h.1))

  root-8 :
      (n root : ℕ) (s : Acpi)
      → IsRoot mem 8 n root
      → n < 2 ^ 28
      → parse_root mem 8 root s ≡ take_tables mem 8 n (root + 36) s
  unfolding parse_root
  root-8 n root s (sum, len) few =
      let rounds : int_rounds ((2 ^ 64 + (36 + 8 * n) - 36) % 2 ^ 64 / 8 % 2 ^ 32) ≡ n =
        ground (arith, few) in
      rw (sum, len, rounds)

  root-4 :
      (n root : ℕ) (s : Acpi)
      → IsRoot mem 4 n root
      → n < 2 ^ 28
      → parse_root mem 4 root s ≡ take_tables mem 4 n (root + 36) s
  unfolding parse_root
  root-4 n root s (sum, len) few =
      let rounds : int_rounds ((2 ^ 64 + (36 + 4 * n) - 36) % 2 ^ 64 / 4 % 2 ^ 32) ≡ n =
        ground (arith, few) in
      rw (sum, len, rounds)

  -- A root pointer of revision 2 or more and one of an earlier revision, whose root tables have the
  -- right checksum and name the same tables in the same order, lead acpi_parse_rsdt to the same
  -- state, or both to none.
  pub parse_rsdt_same :
      (rsdp rsdp' n : ℕ) (s : Acpi)
      → 2 ≤ mem (rsdp + 15)
      → mem (rsdp' + 15) < 2
      → n < 2 ^ 28
      → IsRoot mem 8 n (virt (le mem (rsdp + 24) 8))
      → IsRoot mem 4 n (virt (le mem (rsdp' + 16) 4))
      → SameTables mem n (virt (le mem (rsdp + 24) 8) + 36) (virt (le mem (rsdp' + 16) 4) + 36)
      → parse_rsdt mem rsdp s ≡ parse_rsdt mem rsdp' s
  unfolding parse_rsdt
  parse_rsdt_same rsdp rsdp' n s new old few root root' same =
      let test : leb 2 (mem (rsdp + 15)) ≡ true = ground (arith, new) in
      let test' : leb 2 (mem (rsdp' + 15)) ≡ false = ground (arith, old) in
      rw (test, test')
        (root-8 n (virt (le mem (rsdp + 24) 8)) s root few
          ∙ tables_same n (virt (le mem (rsdp + 24) 8) + 36) (virt (le mem (rsdp' + 16) 4) + 36) s
              same
          ∙ sym (root-4 n (virt (le mem (rsdp' + 16) 4)) s root' few))
