-- ===== src/Acpi/Cores.antt =====
-- Kernel/drivers/core/acpi.c: the cores that `acpi_parse_madt` finds.
use aos.Base.{
  ℕ, zero, suc, ◌+◌, ◌-◌, ◌<◌, ◌≤◌, ◌≡◌, ◌∙◌, refl, ap, sym, arith, true, false, ltb, leb,
}
use aos.Base.{
  List, [], ◌∷◌, ◌++◌, append-nil, append_assoc, length, length-append, if◌then◌else◌, Bool-cases,
  inl, inr,
}
use aos.Acpi.{Memory, le, virt}
use aos.Acpi.Tables.{
  ended, no_end, Acpi, page, is_core, parse_entries, table_length, parse_madt, device_flags,
}

-- An entry of the table: its length, and the identities that it adds, one or none.
pub record Entry : Type 0 where
  pub len : ℕ
  pub cores : List ℕ

-- What the entry at `ptr` adds.
abbrev pub cores_at : Memory → (ptr : ℕ) → List ℕ
cores_at mem ptr = if is_core mem ptr then mem (ptr + 3) ∷ [] else []

-- The entries lie one behind the other from `ptr` on, the last reaching `end`.
abbrev pub Laid : Memory → (ptr end : ℕ) → List Entry → Type 0
Laid mem ptr end [] = end ≤ ptr
Laid mem ptr end (x ∷ entries) =
    (ptr < end)
    × (mem (ptr + 1) ≡ x.len)
    × (0 < x.len)
    × (cores_at mem ptr ≡ x.cores)
    × Laid mem (ptr + x.len) end entries

-- The loop comes from `from` to `ptr` through the entries.
abbrev pub Reached : Memory → (end from : ℕ) → List Entry → (ptr : ℕ) → Type 0
Reached mem end from [] ptr = from ≡ ptr
Reached mem end from (x ∷ entries) ptr =
    (from < end)
    × (mem (from + 1) ≡ x.len)
    × (cores_at mem from ≡ x.cores)
    × Reached mem end (from + x.len) entries ptr

abbrev pub all_cores : List Entry → List ℕ
all_cores [] = []
all_cores (x ∷ entries) = x.cores ++ all_cores entries

parts :
    (ids : List ℕ) (x : Entry) (entries : List Entry)
    → length (ids ++ all_cores (x ∷ entries)) ≤ 256
    → (ids ++ (x.cores ++ all_cores entries) ≡ (ids ++ x.cores) ++ all_cores entries)
      × (length (ids ++ x.cores) ≤ 256)
parts ids x entries room =
    let sum = length-append (ids ++ x.cores) (all_cores entries) in
    let whole : ids ++ (x.cores ++ all_cores entries) ≡ (ids ++ x.cores) ++ all_cores entries =
      sym (append_assoc ids x.cores (all_cores entries)) in
    (whole, omega (arith, room, ap length whole, sum))

module _ (mem : Memory) (end : ℕ) where
  step-entries :
      (rounds ptr : ℕ) (ids : List ℕ)
      → ptr < end
      → length (ids ++ cores_at mem ptr) ≤ 256
      → parse_entries mem (suc rounds) ptr end ids
        ≡ parse_entries mem rounds (ptr + mem (ptr + 1)) end (ids ++ cores_at mem ptr)
  unfolding parse_entries
  step-entries rounds ptr ids inside room =
      let more : ltb ptr end ≡ true = ground arith in
      elim (Bool-cases (is_core mem ptr)) [
        | inl t ↦
            let few : length (ids ++ mem (ptr + 3) ∷ []) ≤ 256 = rw t at room in
            let free : leb 256 (length ids) ≡ false =
              ground (arith, few, length-append ids (mem (ptr + 3) ∷ [])) in
            rw (more, t, free)
        | inr t ↦ rw (more, t, append-nil)
      ]

  end-entries :
      (rounds ptr : ℕ) (ids : List ℕ)
      → end ≤ ptr
      → parse_entries mem (suc rounds) ptr end ids ≡ ended ids
  unfolding parse_entries
  end-entries rounds ptr ids behind = let over : ltb ptr end ≡ false = ground arith in rw over

  entries_lem :
      (rounds ptr : ℕ) (ids : List ℕ) (entries : List Entry)
      → Laid mem ptr end entries
      → end - ptr < rounds
      → length (ids ++ all_cores entries) ≤ 256
      → parse_entries mem rounds ptr end ids ≡ ended (ids ++ all_cores entries)
  entries_lem zero ptr ids entries h enough room = absurd (omega arith)
  entries_lem (suc rounds) ptr ids [] h enough room = end-entries rounds ptr ids h ∙ rw append-nil
  entries_lem (suc rounds) ptr ids (x ∷ entries) h enough room =
      let (inside, len, pos, cores, later) = h in
      let (whole, few) = parts ids x entries room in
      step-entries rounds ptr ids inside (rw cores few)
      ∙ rw (len, cores, whole)
          (entries_lem rounds (ptr + x.len) (ids ++ x.cores) entries later
            (omega (arith, enough, pos, inside)) (omega (arith, room, ap length whole)))

  zero_rounds : (ptr : ℕ) (ids : List ℕ) → parse_entries mem 0 ptr end ids ≡ no_end
  unfolding parse_entries
  zero_rounds ptr ids = refl

  -- An entry of length 0 that adds no core is read for ever.
  zero_length :
      (rounds ptr : ℕ) (ids : List ℕ)
      → ptr < end
      → mem (ptr + 1) ≡ 0
      → is_core mem ptr ≡ false
      → parse_entries mem rounds ptr end ids ≡ no_end
  unfolding parse_entries
  zero_length zero ptr ids inside empty other = refl
  zero_length (suc rounds) ptr ids inside empty other =
      let more : ltb ptr end ≡ true = ground arith in
      let stay : ptr + mem (ptr + 1) ≡ ptr = omega (arith, empty) in
      rw (more, other, stay) (zero_length rounds ptr ids inside empty other)

  forever :
      (rounds from ptr : ℕ) (ids : List ℕ) (before : List Entry)
      → Reached mem end from before ptr
      → ptr < end
      → mem (ptr + 1) ≡ 0
      → is_core mem ptr ≡ false
      → length (ids ++ all_cores before) ≤ 256
      → parse_entries mem rounds from end ids ≡ no_end
  forever zero from ptr ids before r inside empty other room = zero_rounds from ids
  forever (suc rounds) from ptr ids [] r inside empty other room =
      rw r (zero_length (suc rounds) ptr ids inside empty other)
  forever (suc rounds) from ptr ids (x ∷ before) (here, len, cores, later) inside empty other room =
      let (whole, few) = parts ids x before room in
      step-entries rounds from ids here (rw cores few)
      ∙ rw (len, cores)
          (forever rounds (from + x.len) ptr (ids ++ x.cores) before later inside empty other
            (omega (arith, room, ap length whole)))

module _ (mem : Memory) (madt : ℕ) (s : Acpi) (entries : List Entry)
    (laid : Laid mem (madt + 44) (madt + table_length mem madt) entries) where
  -- On a table whose entries are not empty and fill it, and where the cores that they stand for have
  -- room, acpi_parse_madt ends, has added the identities of these cores in their order to those it
  -- had, and has mapped the page of the local controller once.
  pub parse_madt_lem :
      length (s.apic_ids ++ all_cores entries) ≤ 256
      → parse_madt mem madt s
        ≡ ended (record s {
          apic_ids = s.apic_ids ++ all_cores entries;
          maps = page (virt (le mem (madt + 36) 4)) (le mem (madt + 36) 4) device_flags ∷ s.maps;
        })
  unfolding parse_madt
  parse_madt_lem room = rw (
      entries_lem mem (madt + table_length mem madt) (table_length mem madt + 1) (madt + 44)
        s.apic_ids entries laid (omega arith) room)

-- An entry of a MADT that says that it has no bytes and is not a core in use keeps acpi_parse_madt in
-- its loop, with any number of rounds.
pub parse_madt_forever :
    (mem : Memory) (madt rounds : ℕ) (ids : List ℕ) (before : List Entry) (ptr : ℕ)
    → Reached mem (madt + table_length mem madt) (madt + 44) before ptr
    → ptr < madt + table_length mem madt
    → mem (ptr + 1) ≡ 0
    → is_core mem ptr ≡ false
    → length (ids ++ all_cores before) ≤ 256
    → parse_entries mem rounds (madt + 44) (madt + table_length mem madt) ids ≡ no_end
parse_madt_forever mem madt rounds ids before ptr reached inside empty other room =
    forever mem (madt + table_length mem madt) rounds (madt + 44) ptr ids before reached inside
      empty other room
