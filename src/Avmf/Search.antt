-- ===== src/Avmf/Search.antt =====
-- Kernel/mm/avmf.c: `avmf_find_region`, which looks for the region that an allocation is taken from.
use aos.Base.{ℕ, ◌+◌, ◌^◌, ◌%◌, ◌≡◌, refl, ◌∙◌, arith}
use aos.Base.{Bool, true, false, not, ◌&&◌, ◌||◌, List, [], ◌∷◌, Option, none, some, ltb, leb, ◌==◌}
use aos.Base.{if◌then◌else◌}
use aos.Avmf.{Region, usable}

-- The `score` of a region.
abbrev pub score : (max_virt least : ℕ) → Region → ℕ
score max_virt least r =
    if ltb max_virt r.limit
    then 1000
    else if r.limit == max_virt
    then 100
    else if ltb least r.limit
    then 10
    else 0

-- The loop over a table whose elements have a region: `best_score` is an argument, and no round changes it.
unfoldable pub best_region {ℓ} :
    {A : Type ℓ} (region_of : A → Region) (min_virt max_virt least best_score : ℕ)
    → Option A
    → List A
    → Option A
best_region region_of min_virt max_virt least best_score best [] = best
best_region region_of min_virt max_virt least best_score best (r ∷ rs) =
    let kept = best_region region_of min_virt max_virt least best_score best rs in
    let taken = best_region region_of min_virt max_virt least best_score (some r) rs in
    if not (usable (region_of r))
    then kept
    else if ltb min_virt (region_of r).base
    then kept
    else if ltb best_score (score max_virt least (region_of r))
    then taken
    else kept

unfoldable pub find_region {ℓ} :
    {A : Type ℓ} → (A → Region) → List A → (min_virt max_virt min_size : ℕ) → Option A
find_region region_of regions min_virt max_virt min_size =
    best_region region_of min_virt max_virt ((min_size + min_virt) % 2 ^ 64) 0 none regions

-- A region that the search may answer: it is sound, starts no later than asked, and ends behind
-- the addresses that are asked for.
abbrev pub is_candidate : (min_virt max_virt least : ℕ) → Region → Bool
is_candidate min_virt max_virt least r =
    usable r && (leb r.base min_virt && (leb max_virt r.limit || ltb least r.limit))

-- The last region of a table that passes a test.
abbrev pub last_such {ℓ} : {A : Type ℓ} → (A → Bool) → List A → Option A
last_such test [] = none
last_such test (r ∷ rs) = elim (last_such test rs) [
  | some q ↦ some q
  | none ↦ if test r then some r else none
]

abbrev pub or_best {ℓ} : {A : Type ℓ} → Option A → Option A → Option A
or_best best none = best
or_best best (some r) = some r

or_best-none {ℓ} : {A : Type ℓ} (o : Option A) → or_best none o ≡ o
or_best-none none = refl
or_best-none (some r) = refl

-- The guards of a round and the test of a candidate agree.
round-candidate {ℓ} :
    {A : Type ℓ} (u : Bool) (base limit min_virt max_virt least : ℕ) (kept taken : Option A)
    → (if not u
        then kept
        else if ltb min_virt base
        then kept
        else if ltb 0 (
            if ltb max_virt limit
            then 1000
            else if limit == max_virt
            then 100
            else if ltb least limit
            then 10
            else 0)
        then taken
        else kept)
      ≡ (if u && (leb base min_virt && (leb max_virt limit || ltb least limit))
          then taken
          else kept)
round-candidate false base limit min_virt max_virt least kept taken = refl
round-candidate true base limit min_virt max_virt least kept taken = ground arith

or_best-first {ℓ} :
    {A : Type ℓ} (c : Bool) (best : Option A) (r : A) (later : Option A)
    → (if c then or_best (some r) later else or_best best later)
      ≡ or_best best (elim later [ some q ↦ some q | none ↦ if c then some r else none ])
or_best-first true best r none = refl
or_best-first true best r (some q) = refl
or_best-first false best r none = refl
or_best-first false best r (some q) = refl

best_region-last {ℓ} :
    {A : Type ℓ} (region_of : A → Region) (min_virt max_virt least : ℕ) (best : Option A)
    (rs : List A)
    → best_region region_of min_virt max_virt least 0 best rs
      ≡ or_best best (last_such (λ x. is_candidate min_virt max_virt least (region_of x)) rs)
unfolding best_region
best_region-last region_of min_virt max_virt least best [] = refl
best_region-last region_of min_virt max_virt least best (r ∷ rs) =
    round-candidate (usable (region_of r)) (region_of r).base (region_of r).limit min_virt max_virt
      least _ _
    ∙ rw
        (
          best_region-last region_of min_virt max_virt least best rs,
          best_region-last region_of min_virt max_virt least (some r) rs,
        )
        (or_best-first (is_candidate min_virt max_virt least (region_of r)) best r
          (last_such (λ x. is_candidate min_virt max_virt least (region_of x)) rs))

-- `avmf_find_region` answers the last region of the table that is sound, starts no later than
-- `min_virt` and ends behind the addresses asked for, and NULL where there is none. The scores,
-- which rank how well a region fits, have no effect on the choice.
pub find_region_lem {ℓ} :
    {A : Type ℓ} (region_of : A → Region) (regions : List A) (min_virt max_virt min_size : ℕ)
    → find_region region_of regions min_virt max_virt min_size
      ≡ last_such
          (λ x. is_candidate min_virt max_virt ((min_size + min_virt) % 2 ^ 64) (region_of x))
          regions
unfolding find_region
find_region_lem region_of regions min_virt max_virt min_size =
    best_region-last region_of min_virt max_virt ((min_size + min_virt) % 2 ^ 64) none regions
    ∙ or_best-none (
        last_such
          (λ x. is_candidate min_virt max_virt ((min_size + min_virt) % 2 ^ 64) (region_of x))
          regions)
