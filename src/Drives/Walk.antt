-- ===== src/Drives/Walk.antt =====
-- Kernel/drivers/io/drive.c: the search by index as one walk along the drivers.
use aos.Base.{
  ℕ, zero, suc, ◌+◌, ◌≤◌, ◌≡◌, ◌∙◌, refl, ap, arith, Bool, true, false, not, ◌&&◌, ◌||◌, ◌==◌,
}
use aos.Base.{
  List, [], ◌∷◌, length, Option, none, get_elem?, Exec, done, Bool-cases, inl, inr, if_cases,
}
use aos.Modules.{Module, Registry, Query, is_registered, get_registered_driver}
use aos.Modules.Search.{fits, fitting, or_null, get_registered_driver_lem}
use aos.Drives.{
  Place, Sata, Drive, Outcome, next, failed, taken, mass_storage, try_driver, continue_search,
}
use aos.Drives.{drives_from, get_available_drives_pcie}

-- A driver in a store of modules, and only such ones.
abbrev pub all_drivers : (ℕ → Module) → List ℕ → Bool
all_drivers modules [] = true
all_drivers modules (p ∷ ps) = not (p == 0 || not (modules p).is_driver) && all_drivers modules ps

and_left : (a b : Bool) → (a && b) ≡ true → a ≡ true
and_left a b h = ground (arith, h)

pub fitting-all_drivers :
    (modules : ℕ → Module) (q : Query) (slots : List ℕ)
    → all_drivers modules (fitting modules q slots) ≡ true
fitting-all_drivers modules q [] = refl
fitting-all_drivers modules q (p ∷ slots) =
    let later = fitting-all_drivers modules q slots in
    elim (Bool-cases (p == 0)) [
      | inl n ↦ rw n later
      | inr n ↦ elim (Bool-cases (fits q (modules p))) [
        | inl t ↦
            let is_driver : (modules p).is_driver ≡ true = and_left (modules p).is_driver _ t in
            rw (n, t, n, is_driver) later
        | inr t ↦ rw (n, t) later
      ]
    ]

length-fitting :
    (modules : ℕ → Module) (q : Query) (slots : List ℕ)
    → length (fitting modules q slots) ≤ length slots
length-fitting modules q [] = omega arith
length-fitting modules q (p ∷ slots) =
    if_cases (λ (ps : List ℕ). length ps ≤ suc (length slots)) (not (p == 0) && fits q (modules p))
      (λ t. omega (arith, length-fitting modules q slots))
      (λ t. omega (arith, length-fitting modules q slots))

module _ {State : Type 0} (ops : Sata State) (place : Place) where
  -- One driver after the other is tried, until one gives a drive or fails.
  abbrev pub walk : List ℕ → State → Exec (Option Drive × State)
  walk [] s = done (none, s)
  walk (p ∷ ps) s = continue_search ops (try_driver ops s place p) (walk ps)

  continue_same :
      {f g : State → Exec (Option Drive × State)} (x : Outcome × State)
      → ((s : State) → f s ≡ g s)
      → continue_search ops x f ≡ continue_search ops x g
  continue_same (next, s) h = h s
  continue_same (failed, s) h = refl
  continue_same (taken d, s) h = refl

  module _ (r : Registry) (full : is_registered r.slots 0 ≡ false) where
    -- The drivers that the rounds from an index on find.
    abbrev From : ℕ → List ℕ → Type 0
    From i ps =
        (k : ℕ) → get_elem? (fitting r.modules mass_storage r.slots) (i + k) ≡ get_elem? ps k

    found :
        (i : ℕ) (ps : List ℕ)
        → From i ps
        → get_registered_driver r mass_storage i ≡ done (or_null (get_elem? ps 0))
    found i ps from =
        let start : i ≡ i + 0 = omega arith in
        get_registered_driver_lem r mass_storage i full
        ∙ ap (λ k. done (or_null (get_elem? (fitting r.modules mass_storage r.slots) k))) start
        ∙ ap (λ x. done (or_null x)) (from 0)

    behind : (i p : ℕ) (ps : List ℕ) → From i (p ∷ ps) → From (i + 1) ps
    behind i p ps from k =
        let shift : (i + 1) + k ≡ i + suc k = omega arith in
        ap (get_elem? (fitting r.modules mass_storage r.slots)) shift ∙ from (suc k)

    behind_end : (i : ℕ) → From i [] → From (i + 1) []
    behind_end i from k =
        let shift : (i + 1) + k ≡ i + suc k = omega arith in
        ap (get_elem? (fitting r.modules mass_storage r.slots)) shift ∙ from (suc k)

    drives_from-walk :
        (rounds i : ℕ) (ps : List ℕ) (s : State)
        → From i ps
        → all_drivers r.modules ps ≡ true
        → length ps ≤ rounds
        → drives_from ops r place i rounds s ≡ walk ps s
    unfolding drives_from
    drives_from-walk zero i [] s from drivers few = refl
    drives_from-walk zero i (p ∷ ps) s from drivers few = absurd (omega (arith, few))
    drives_from-walk (suc rounds) i [] s from drivers few =
        rw (found i [] from)
          (drives_from-walk rounds (i + 1) [] s (behind_end i from) refl (omega arith))
    drives_from-walk (suc rounds) i (p ∷ ps) s from drivers few =
        let driver : (p == 0 || not (r.modules p).is_driver) ≡ false = ground (arith, drivers) in
        rw (found i (p ∷ ps) from, driver)
          (continue_same (try_driver ops s place p) (λ s'.
            drives_from-walk rounds (i + 1) ps s' (behind i p ps from) (ground (arith, drivers))
              (omega (arith, few))))

  -- On a full registry get_available_drives_pcie tries the drivers of the class of drives that are
  -- registered, each of them once and in their order, and answers as the first that does not let it
  -- go on.
  pub get_available_drives_pcie_lem :
      (r : Registry) (s : State)
      → is_registered r.slots 0 ≡ false
      → get_available_drives_pcie ops r place s ≡ walk (fitting r.modules mass_storage r.slots) s
  unfolding get_available_drives_pcie
  get_available_drives_pcie_lem r s full =
      drives_from-walk r full (length r.slots) 0 (fitting r.modules mass_storage r.slots) s
        (λ k. ap (get_elem? (fitting r.modules mass_storage r.slots)) (omega arith))
        (fitting-all_drivers r.modules mass_storage r.slots)
        (length-fitting r.modules mass_storage r.slots)
