-- ===== src/Modules/Sets.antt =====
-- Kernel/src/module.c: the registered modules as a set of addresses.
use aos.Base.{ℕ, suc, ◌<◌, ◌≤◌, ◌≡◌, ◌∙◌, refl, ap, arith, Bool, true, false, not, ◌&&◌, ◌||◌}
use aos.Base.{leb, ◌==◌, if_cases, List, [], ◌∷◌, ◌++◌, length, length-append, Bool-cases, inl, inr}
use aos.Modules.{Registry, set_registered, has_free, fill_free, grow_by, ensure_room, append_module}
use aos.Modules.{module_register, clear_module, module_unregister, is_registered}

-- The array has room for the places in use, and none are in use before it is allocated.
pub record IsSound (r : Registry) : Type 0 where
  pub room : length r.slots ≤ r.cap
  pub empty : r.allocated ≡ false → length r.slots ≡ 0

is_registered-fill_free :
    (slots : List ℕ) (a b : ℕ)
    → has_free slots ≡ true
    → 0 < b
    → is_registered (fill_free slots a) b ≡ (a == b || is_registered slots b)
unfolding is_registered fill_free has_free
is_registered-fill_free [] a b h pos = cc
is_registered-fill_free (p ∷ slots) a b h pos = elim (Bool-cases (p == 0)) [
  | inl t ↦ let apart : (p == b) ≡ false = ground (arith, t, pos) in rw (t, apart) (ground arith)
  | inr t ↦
      let more : has_free slots ≡ true = ground (arith, h, t) in
      rw t (ground (arith, is_registered-fill_free slots a b more pos))
]

length-fill_free : (slots : List ℕ) (a : ℕ) → length (fill_free slots a) ≡ length slots
unfolding fill_free
length-fill_free [] a = refl
length-fill_free (p ∷ slots) a = ground (arith, length-fill_free slots a)

is_registered-append :
    (slots : List ℕ) (a b : ℕ)
    → is_registered (slots ++ a ∷ []) b ≡ (a == b || is_registered slots b)
unfolding is_registered
is_registered-append [] a b = refl
is_registered-append (p ∷ slots) a b = ground (arith, is_registered-append slots a b)

is_registered-clear :
    (slots : List ℕ) (a b : ℕ)
    → 0 < b
    → is_registered (clear_module slots a) b ≡ (not (a == b) && is_registered slots b)
unfolding is_registered clear_module
is_registered-clear [] a b pos = ground arith
is_registered-clear (p ∷ slots) a b pos = ground (arith, is_registered-clear slots a b pos)

length-clear : (slots : List ℕ) (a : ℕ) → length (clear_module slots a) ≡ length slots
unfolding clear_module
length-clear [] a = refl
length-clear (p ∷ slots) a = ap suc (length-clear slots a)

marked :
    (r : Registry) (a b : ℕ)
    → ((set_registered r a).modules b).registered ≡ (b == a || (r.modules b).registered)
marked r a b = ground arith

-- What a registration answers: either the module is added, its mark is set and no other module
-- changes, or nothing is registered and no mark set.
pub record Added (r : Registry) (a : ℕ) (ok : Bool) (r' : Registry) : Type 0 where
  pub sound : IsSound r'
  pub members :
      (b : ℕ) → 0 < b → is_registered r'.slots b ≡ ((ok && a == b) || is_registered r.slots b)
  pub marks : (b : ℕ) → (r'.modules b).registered ≡ ((ok && b == a) || (r.modules b).registered)

-- Room for one more module, where the answer says so; nothing else changes.
abbrev HasRoom : Registry → Bool × Registry → Type 0
HasRoom r (ok, r') =
    (r'.slots ≡ r.slots)
    × (r'.modules ≡ r.modules)
    × IsSound r'
    × (ok ≡ true → (r'.allocated ≡ true) × (length r.slots < r'.cap))

grow_by-HasRoom : (r : Registry) (answers : List Bool) → IsSound r → HasRoom r (grow_by r answers)
grow_by-HasRoom r [] s = (refl, refl, s, λ t. cc)
grow_by-HasRoom r (false ∷ answers) s =
    (refl, refl, record { room = s.room; empty = s.empty }, λ t. cc)
grow_by-HasRoom r (true ∷ answers) s = (
  refl,
  refl,
  record { room = omega (arith, s.room); empty = λ t. cc },
  λ t. (refl, omega (arith, s.room)),
)

ensure_room-HasRoom : (r : Registry) → IsSound r → HasRoom r (ensure_room r)
ensure_room-HasRoom r s =
    if_cases (HasRoom r) (not r.allocated || leb r.cap (length r.slots))
      (λ t. grow_by-HasRoom r r.answers s) (λ t. (refl, refl, s, λ u. ground (arith, t)))

append_module-Added :
    (r : Registry) (a : ℕ) (x : Bool × Registry)
    → HasRoom r x
    → Added r a (append_module a x).0 (append_module a x).1
append_module-Added r a (false, r') (slots, modules, s, room) = record {
  sound = s;
  members = λ b pos. rw slots;
  marks = λ b. rw modules;
}
append_module-Added r a (true, r') (slots, modules, s, room) = record {
  sound = record {
    room = omega (arith, length-append r'.slots (a ∷ []), ap length slots, (room refl).1);
    empty = λ t. absurd (ground (arith, t, (room refl).0));
  };
  members = λ b pos. is_registered-append r'.slots a b ∙ rw slots;
  marks = λ b. marked r' a b ∙ rw modules;
}

-- On a sound registry module_register keeps the registry sound. Where it answers AOS_TRUE, the modules
-- that are registered are those that were and the new one, and the marks are those that were set and
-- that of the new one; where it answers AOS_FALSE, both are as before.
pub module_register_lem :
    (r : Registry) (a : ℕ) → IsSound r → Added r a (module_register r a).0 (module_register r a).1
unfolding module_register
module_register_lem r a s =
    if_cases (λ (x : Bool × Registry). Added r a x.0 x.1) (has_free r.slots)
      (λ t. record {
        sound = record {
          room = omega (arith, length-fill_free r.slots a, s.room);
          empty = λ u. omega (arith, length-fill_free r.slots a, s.empty u);
        };
        members = λ b pos. is_registered-fill_free r.slots a b t pos;
        marks = λ b. marked r a b;
      })
      (λ t. append_module-Added r a (ensure_room r) (ensure_room-HasRoom r s))

has_free-null : (slots : List ℕ) → has_free slots ≡ is_registered slots 0
unfolding has_free is_registered
has_free-null [] = refl
has_free-null (p ∷ slots) = ground (arith, has_free-null slots)

append_module_full :
    (r : Registry) (a : ℕ) (x : Bool × Registry)
    → HasRoom r x
    → 0 < a
    → is_registered r.slots 0 ≡ false
    → is_registered (append_module a x).1.slots 0 ≡ false
append_module_full r a (false, r') (slots, modules, sound, room) pos full = rw slots full
append_module_full r a (true, r') (slots, modules, sound, room) pos full =
    is_registered-append r'.slots a 0 ∙ rw slots (ground (arith, full, pos))

-- A registration leaves no place free where none was.
pub module_register_full :
    (r : Registry) (a : ℕ)
    → IsSound r
    → 0 < a
    → is_registered r.slots 0 ≡ false
    → is_registered (module_register r a).1.slots 0 ≡ false
unfolding module_register
module_register_full r a s pos full =
    rw (has_free-null r.slots, full)
      (append_module_full r a (ensure_room r) (ensure_room-HasRoom r s) pos full)

-- On a sound registry module_unregister keeps the registry sound, and the modules that are registered
-- are those that were, less the one.
pub module_unregister_lem :
    (r : Registry) (a : ℕ)
    → IsSound r
    → IsSound (module_unregister r a).1
      × ((b : ℕ)
          → 0 < b
          → is_registered (module_unregister r a).1.slots b
            ≡ (not (a == b) && is_registered r.slots b))
unfolding module_unregister
module_unregister_lem r a s = (
  record {
    room = omega (arith, length-clear r.slots a, s.room);
    empty = λ t. omega (arith, length-clear r.slots a, s.empty t);
  },
  λ b pos. is_registered-clear r.slots a b pos,
)
