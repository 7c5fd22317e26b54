-- ===== src/Aml/Frame.antt =====
-- Kernel/drivers/aml/aml_parser.c: the stack of a frame, `aml_push` and `aml_pop`. An object is the
-- address of it, 0 for NULL.
use aos.Base.{ℕ, zero, suc, ◌+◌, ◌-◌, ◌<◌, ◌≤◌, ◌≡◌, ◌≢◌, refl, ap, ◌∙◌, arith}
use aos.Base.{
  Bool, true, false, List, [], ◌∷◌, length, Bool-cases, inl, inr, leb, ◌==◌, if◌then◌else◌,
}

-- `stack` and `stack_top` of `aml_frame_t`.
pub record Frame : Type 0 where
  pub stack : ℕ → ℕ
  pub stack_top : ℕ

abbrev pub pushed : Frame → ℕ → Frame
pushed f obj = record {
  stack = λ i. if i == f.stack_top then obj else f.stack i;
  stack_top = f.stack_top + 1;
}

-- The first answer is `*valid`.
unfoldable pub push : Frame → ℕ → Bool × Frame
push f obj =
    if obj == 0
    then (false, f)
    else if leb 256 f.stack_top
    then (false, f)
    else (true, pushed f obj)

unfoldable pub pop : Frame → ℕ × Frame
pop f =
    if f.stack_top == 0
    then (0, f)
    else (f.stack (f.stack_top - 1), record f { stack_top = f.stack_top - 1 })

-- What the stack holds, the top first.
abbrev pub contents : (ℕ → ℕ) → ℕ → List ℕ
contents stack zero = []
contents stack (suc n) = stack n ∷ contents stack n

abbrev pub held : Frame → List ℕ
held f = contents f.stack f.stack_top

contents-above :
    (stack : ℕ → ℕ) (top obj n : ℕ)
    → n ≤ top
    → contents (λ i. if i == top then obj else stack i) n ≡ contents stack n
contents-above stack top obj zero h = refl
contents-above stack top obj (suc n) h =
    let below : (n == top) ≡ false = ground arith in
    rw (below, contents-above stack top obj n (omega arith)) refl

-- The stack as a list of at most 256 objects.
abbrev pub Pushes : Frame → ℕ → Bool × Frame → Type 0
Pushes f obj (true, f') = (length (held f) < 256) × (held f' ≡ obj ∷ held f)
Pushes f obj (false, f') = (256 ≤ length (held f)) × (f' ≡ f)

abbrev pub Pops : Frame → List ℕ → ℕ × Frame → Type 0
Pops f [] (obj, f') = (obj ≡ 0) × (f' ≡ f)
Pops f (o ∷ rest) (obj, f') = (obj ≡ o) × (held f' ≡ rest)

length-contents : (stack : ℕ → ℕ) (n : ℕ) → length (contents stack n) ≡ n
length-contents stack zero = refl
length-contents stack (suc n) = ap suc (length-contents stack n)

held-pushed : (f : Frame) (obj : ℕ) → held (pushed f obj) ≡ obj ∷ held f
held-pushed f obj =
    let stack' : ℕ → ℕ = λ i. if i == f.stack_top then obj else f.stack i in
    let here : (f.stack_top == f.stack_top) ≡ true = ground arith in
    let one_more : f.stack_top + 1 ≡ suc f.stack_top = omega arith in
    ap (contents stack') one_more
    ∙ rw (here, contents-above f.stack f.stack_top obj f.stack_top (omega arith)) refl

push-Pushes : (f : Frame) (obj : ℕ) → obj ≢ 0 → Pushes f obj (push f obj)
unfolding push
push-Pushes f obj some_obj =
    let not_null : (obj == 0) ≡ false = ground (arith, some_obj) in
    let size = length-contents f.stack f.stack_top in
    elim (Bool-cases (leb 256 f.stack_top)) [
      | inl e ↦ rw (not_null, e) (ground (arith, size), refl)
      | inr e ↦ rw (not_null, e) (ground (arith, size), held-pushed f obj)
    ]

pop-Pops :
    (stack : ℕ → ℕ) (top : ℕ)
    → Pops
        (record { stack = stack; stack_top = top })
        (contents stack top)
        (pop (record { stack = stack; stack_top = top }))
unfolding pop
pop-Pops stack zero = (refl, refl)
pop-Pops stack (suc n) =
    let some_object : (suc n == 0) ≡ false = ground arith in
    let less : suc n - 1 ≡ n = omega arith in rw (some_object, less) (refl, refl)

-- The stack of a frame is a list of at most 256 objects. `aml_push` puts an object that is not NULL
-- on top where there are fewer, and else answers that it is not valid and changes nothing;
-- `aml_pop` takes the top off, or answers NULL on an empty stack and changes nothing.
pub frame_is_list :
    (f : Frame) (obj : ℕ) → obj ≢ 0 → Pushes f obj (push f obj) × Pops f (held f) (pop f)
frame_is_list f obj some_obj = (push-Pushes f obj some_obj, pop-Pops f.stack f.stack_top)
