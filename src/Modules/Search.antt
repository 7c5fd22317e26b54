-- ===== src/Modules/Search.antt =====
-- Kernel/src/module.c: which driver a search finds.
use aos.Base.{
  ℕ, zero, suc, ◌+◌, ◌-◌, ◌≤◌, ◌≡◌, refl, arith, Bool, true, false, not, ◌&&◌, ◌||◌, ◌==◌,
}
use aos.Base.{
  if◌then◌else◌, List, [], ◌∷◌, length, Option, none, some, get_elem?, done, fault, Bool-cases, inl,
  inr,
}
use aos.Modules.{Module, Registry, Query, is_applicable, find_from, get_registered_driver}
use aos.Modules.{is_registered, clear_module, module_unregister}

-- A module fits what it is searched by: the class, the subclass where it is asked for, and the other
-- fields where they are asked for and the module has them.
abbrev pub fits : Query → Module → Bool
fits q m =
    m.is_driver
    && (m.target_class == q.class
        && ((not q.use_subclass || m.target_subclass == q.subclass)
            && ((not (q.use_progif && m.target_use_progifclass) || m.target_progifclass == q.progif)
                && ((not (q.use_revision && m.target_use_revision)
                      || m.target_revision == q.revision)
                    && (not (q.use_vendor && m.target_use_vendor)
                        || m.target_vendor == q.vendor)))))

is_applicable-fits : (q : Query) (m : Module) → is_applicable q m ≡ fits q m
unfolding is_applicable
is_applicable-fits q m = ground arith

-- The modules that fit, in their order.
abbrev pub fitting : (ℕ → Module) → Query → List ℕ → List ℕ
fitting modules q [] = []
fitting modules q (p ∷ slots) =
    let rest = fitting modules q slots in
    if not (p == 0) && fits q (modules p) then p ∷ rest else rest

abbrev pub or_null : Option ℕ → ℕ
or_null none = 0
or_null (some p) = p

module _ (modules : ℕ → Module) (q : Query) where
  pub find_from_lem :
      (idx k found : ℕ) (slots : List ℕ)
      → idx ≡ found + k
      → is_registered slots 0 ≡ false
      → find_from modules q idx found slots ≡ done (or_null (get_elem? (fitting modules q slots) k))
  unfolding find_from is_registered
  find_from_lem idx k found [] e h = refl
  find_from_lem idx zero found (p ∷ slots) e h =
      let there : (p == 0) ≡ false = ground (arith, h) in
      let here : (idx == found) ≡ true = ground (arith, e) in
      elim (Bool-cases (fits q (modules p))) [
        | inl t ↦ rw (there, is_applicable-fits q (modules p), t, here)
        | inr t ↦
            rw (there, is_applicable-fits q (modules p), t)
              (find_from_lem idx 0 found slots e (ground (arith, h)))
      ]
  find_from_lem idx (suc k) found (p ∷ slots) e h =
      let there : (p == 0) ≡ false = ground (arith, h) in
      let later : (idx == found) ≡ false = ground (arith, e) in
      elim (Bool-cases (fits q (modules p))) [
        | inl t ↦
            rw (there, is_applicable-fits q (modules p), t, later)
              (find_from_lem idx k (found + 1) slots (omega (arith, e)) (ground (arith, h)))
        | inr t ↦
            rw (there, is_applicable-fits q (modules p), t)
              (find_from_lem idx (suc k) found slots e (ground (arith, h)))
      ]

  find_from-fault :
      (idx k found : ℕ) (slots : List ℕ)
      → idx ≡ found + k
      → is_registered slots 0 ≡ true
      → length (fitting modules q slots) ≤ k
      → find_from modules q idx found slots ≡ fault
  unfolding find_from is_registered
  find_from-fault idx k found [] e h few = cc
  find_from-fault idx k found (p ∷ slots) e h few = elim (Bool-cases (p == 0)) [
    | inl n ↦ rw n
    | inr n ↦ elim (Bool-cases (fits q (modules p))) [
      | inl t ↦
          let fewer : suc (length (fitting modules q slots)) ≤ k = rw (n, t) at few in
          let later : (idx == found) ≡ false = ground (arith, e, fewer) in
          rw (n, is_applicable-fits q (modules p), t, later)
            (find_from-fault idx (k - 1) (found + 1) slots (omega (arith, e, fewer))
              (ground (arith, h, n)) (omega (arith, fewer)))
      | inr t ↦
          let fewer : length (fitting modules q slots) ≤ k = rw (n, t) at few in
          rw (n, is_applicable-fits q (modules p), t)
            (find_from-fault idx k found slots e (ground (arith, h, n)) fewer)
    ]
  ]

-- Where no place of the registry is free, module_get_applicable_registered_driver answers the module
-- of the index among those that fit, in the order of their places, or NULL where there are fewer.
pub get_registered_driver_lem :
    (r : Registry) (q : Query) (loop_idx : ℕ)
    → is_registered r.slots 0 ≡ false
    → get_registered_driver r q loop_idx
      ≡ done (or_null (get_elem? (fitting r.modules q r.slots) loop_idx))
unfolding get_registered_driver
get_registered_driver_lem r q loop_idx h =
    find_from_lem r.modules q loop_idx loop_idx 0 r.slots (omega arith) h

is_registered-clear_null :
    (slots : List ℕ) (a : ℕ)
    → is_registered slots a ≡ true
    → is_registered (clear_module slots a) 0 ≡ true
unfolding is_registered clear_module
is_registered-clear_null [] a h = cc
is_registered-clear_null (p ∷ slots) a h = ground (arith, h, is_registered-clear_null slots a)

-- After a registered module was unregistered, a search for a driver that is not there, or for one of
-- an index past the drivers that fit, follows NULL.
pub search-unregistered :
    (r : Registry) (a : ℕ) (q : Query) (loop_idx : ℕ)
    → is_registered r.slots a ≡ true
    → length (fitting r.modules q (clear_module r.slots a)) ≤ loop_idx
    → get_registered_driver (module_unregister r a).1 q loop_idx ≡ fault
unfolding get_registered_driver module_unregister
search-unregistered r a q loop_idx h few =
    find_from-fault r.modules q loop_idx loop_idx 0 (clear_module r.slots a) (omega arith)
      (is_registered-clear_null r.slots a h) few
