-- ===== src/Modules/Copies.antt =====
-- Kernel/src/module.c: the searches that answer a copy of a driver, and the removal that frees it.
use aos.Base.{ℕ, zero, suc, ◌≡◌, refl, arith, Bool, true, false, ◌==◌, if◌then◌else◌}
use aos.Base.{
  List, [], ◌∷◌, Option, none, some, get_elem?, Exec, done, fault, ◌>>=◌, Bool-cases, inl, inr,
}
use aos.Modules.{
  Module, Registry, Query, clear_module, is_registered, get_registered_driver, get_driver,
}
use aos.Modules.Search.{fits, fitting, or_null, get_registered_driver_lem}

-- The copy of a module in the memory that `avmf_alloc` answers, or NULL.
abbrev pub copy_module : (answer : Option ℕ) → Registry → (address : ℕ) → ℕ × Registry
copy_module none r address = (0, r)
copy_module (some a) r address =
    (a, record r { modules = λ b. if b == a then r.modules address else r.modules b })

-- `module_get_applicable_registered_driver_alloced`.
unfoldable pub get_registered_driver_alloced :
    Registry → Query → (loop_idx : ℕ) → (answer : Option ℕ) → Exec (ℕ × Registry)
get_registered_driver_alloced r q loop_idx answer = get_registered_driver r q loop_idx >>= λ p.
    done (if p == 0 then (0, r) else copy_module answer r p)

-- `module_get_applicable_driver_alloced`.
unfoldable pub get_driver_alloced :
    Registry
    → (core_modules : List ℕ) → Query
    → (loop_idx : ℕ) → (answer : Option ℕ) → Exec (ℕ × Registry)
get_driver_alloced r core_modules q loop_idx answer =
    get_driver r.modules core_modules q loop_idx >>= λ p.
    done (if p == 0 then (0, r) else copy_module answer r p)

-- What `avmf_free` is called on, one place after the other.
unfoldable pub freed_modules : List ℕ → (address : ℕ) → List ℕ
freed_modules [] address = []
freed_modules (p ∷ slots) address =
    let rest = freed_modules slots address in if address == p then p ∷ rest else rest

-- `module_unregister_dealloc`, with what it frees.
unfoldable pub module_unregister_dealloc : Registry → (address : ℕ) → Bool × List ℕ × Registry
module_unregister_dealloc r address =
    (true, freed_modules r.slots address, record r { slots = clear_module r.slots address })

-- The copy is of a driver that fits, and every module but the one at its address is as it was.
abbrev pub IsCopy : Registry → Query → Exec (ℕ × Registry) → Type 0
IsCopy r q fault = ⊥
IsCopy r q (done (a, r')) =
    ((a == 0) ≡ false → fits q (r'.modules a) ≡ true)
    × ((b : ℕ) → (b == a) ≡ false → r'.modules b ≡ r.modules b)

-- What is at an index, if anything is, fits.
abbrev FitsAt : (ℕ → Module) → Query → List ℕ → ℕ → Type 0
FitsAt modules q ps k =
    let p = or_null (get_elem? ps k) in (p == 0) ≡ false → fits q (modules p) ≡ true

fits_front :
    (modules : ℕ → Module) (q : Query) (p : ℕ) (ps : List ℕ)
    → fits q (modules p) ≡ true
    → ((k : ℕ) → FitsAt modules q ps k)
    → (k : ℕ) → FitsAt modules q (p ∷ ps) k
fits_front modules q p ps fit rest zero there = fit
fits_front modules q p ps fit rest (suc k) there = rest k there

fitting-FitsAt :
    (modules : ℕ → Module) (q : Query) (slots : List ℕ) (k : ℕ)
    → FitsAt modules q (fitting modules q slots) k
fitting-FitsAt modules q [] k = λ there. cc
fitting-FitsAt modules q (p ∷ slots) k = elim (Bool-cases (p == 0)) [
  | inl n ↦ rw n (fitting-FitsAt modules q slots k)
  | inr n ↦ elim (Bool-cases (fits q (modules p))) [
    | inl t ↦
        rw (n, t)
          (fits_front modules q p (fitting modules q slots) t (fitting-FitsAt modules q slots) k)
    | inr t ↦ rw (n, t) (fitting-FitsAt modules q slots k)
  ]
]

copy_module-IsCopy :
    (r : Registry) (q : Query) (answer : Option ℕ) (p : ℕ)
    → fits q (r.modules p) ≡ true
    → IsCopy r q (done (copy_module answer r p))
copy_module-IsCopy r q none p fit = (λ t. cc, λ b t. refl)
copy_module-IsCopy r q (some a) p fit =
    let here : (a == a) ≡ true = ground arith in (λ t. rw here fit, λ b t. rw t)

copied :
    (r : Registry) (q : Query) (answer : Option ℕ) (p : ℕ)
    → ((p == 0) ≡ false → fits q (r.modules p) ≡ true)
    → IsCopy r q (done (if p == 0 then (0, r) else copy_module answer r p))
copied r q answer p fit = elim (Bool-cases (p == 0)) [
  | inl n ↦ rw n (λ t. cc, λ b t. refl)
  | inr n ↦ rw n (copy_module-IsCopy r q answer p (fit n))
]

-- On a full registry the copy that module_get_applicable_registered_driver_alloced answers, if it is
-- not NULL, is of a driver that fits, and no module but that at its address changes.
pub get_registered_driver_alloced_lem :
    (r : Registry) (q : Query) (loop_idx : ℕ) (answer : Option ℕ)
    → is_registered r.slots 0 ≡ false
    → IsCopy r q (get_registered_driver_alloced r q loop_idx answer)
unfolding get_registered_driver_alloced
get_registered_driver_alloced_lem r q loop_idx answer full =
    rw (get_registered_driver_lem r q loop_idx full) (
      copied r q answer (or_null (get_elem? (fitting r.modules q r.slots) loop_idx))
        (fitting-FitsAt r.modules q r.slots loop_idx))
