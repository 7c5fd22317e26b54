-- ===== src/Aml/Looping.antt =====
-- Kernel/drivers/aml/aml_parser.c: when the loop of `aml_parse` ends.
use aos.Base.{ℕ, zero, suc, ◌+◌, ◌≤◌, ◌<◌, ◌≡◌, refl, sym, ◌∙◌, arith}
use aos.Base.{true, false, Option, none, some}
use aos.Base.{Exec, done, fault, Bool-cases, inl, inr}
use mathlib.Core.Path.{subst}
use aos.Aml.{Parser, Ptr, to, M, ◌>>◌, pure, store, bind-some}
use aos.Aml.Stream.{peek, eof}
use aos.Aml.Consts.{parse_data_object}
use aos.Aml.Terms.{is_data_op, parse_term, link_node, parse_terms, Loop, ended, running}
use aos.Aml.Progress.{Moves, Leaves, Further, Moves-store, Moves-parse_data_object}

-- The stream stands before a byte that `aml_parse_term` passes over without consuming it.
abbrev pub IsStuck : Parser → Type 0
IsStuck s = (s.ptr < s.stop) × (is_data_op (s.mem s.ptr) ≡ false)

pub peek-some : (s : Parser) → s.ptr < s.stop → peek s ≡ done (some (s.mem s.ptr), s)
unfolding peek
peek-some s room = ground arith

parse_term-IsStuck : (s : Parser) (n : Ptr) → IsStuck s → parse_term n s ≡ done (some none, s)
unfolding parse_term
parse_term-IsStuck s n (room, other) = bind-some peek _ s (peek-some s room) ∙ rw other refl

-- Before a byte that starts no data object the loop of `aml_parse` never ends: however many
-- rounds it is given, it is still running, with nothing consumed and nothing changed.
pub parse_terms_forever :
    (fuel : ℕ) (n : Ptr) (prev : Option Ptr) (s : Parser)
    → IsStuck s
    → parse_terms fuel n prev s ≡ done (some running, s)
unfolding parse_terms
parse_terms_forever zero n prev s h = let more : eof s ≡ false = ground arith in rw more
parse_terms_forever (suc fuel) n prev s h =
    let more : eof s ≡ false = ground arith in
    rw more (bind-some (parse_term n) _ s (parse_term-IsStuck s n h))
    ∙ parse_terms_forever fuel n prev s h

Moves-link_node : (n : Ptr) (prev : Option Ptr) (c : Ptr) → Moves 0 (link_node n prev c)
unfolding link_node
Moves-link_node n none c = Moves-store n _
Moves-link_node n (some p) c = Moves-store p _

-- One term: nothing is consumed before a byte that starts no data object, else a byte or more.
Consumes : Parser → Exec (Option (Option Ptr) × Parser) → Type 0
Consumes s fault = Unit {0}
Consumes s (done (none, s')) = Unit {0}
Consumes s (done (some none, s')) = (is_data_op (s.mem s.ptr) ≡ false) × (s' ≡ s)
Consumes s (done (some (some c), s')) = Further 1 s s'

-- What follows a state that is further on, and gives the node `c`.
Consumes-given :
    (s s1 : Parser) (c : Ptr) (r : Exec (Option (Unit {0}) × Parser))
    → Further 1 s s1
    → Leaves 0 s1 r
    → Consumes s (elim r [
      | fault ↦ fault
      | done (none, s') ↦ done (none, s')
      | done (some _, s') ↦ done (some (some c), s')
    ])
unfolding Consumes
Consumes-given s s1 c fault f l = tt
Consumes-given s s1 c (done (none, s')) f l = tt
Consumes-given s s1 c (done (some u, s')) f l = (omega arith, l.1 ∙ f.1, l.2 ∙ f.2)

Consumes-attached :
    (s : Parser) (n : Ptr) (r : Exec (Option Ptr × Parser))
    → Leaves 1 s r
    → Consumes s (elim r [
      | fault ↦ fault
      | done (none, s') ↦ done (none, s')
      | done (some c, s') ↦
          (store c (λ x. record x { parent = to n }) >> pure {A = Option Ptr} (some c)) s'
    ])
unfolding Consumes
Consumes-attached s n fault l = tt
Consumes-attached s n (done (none, s')) l = tt
Consumes-attached s n (done (some c, s')) l =
    Consumes-given s s' c (store c (λ x. record x { parent = to n }) s') l
      ((Moves-store c (λ x. record x { parent = to n })).leaves s')

parse_term-Consumes : (n : Ptr) (s : Parser) → s.ptr < s.stop → Consumes s (parse_term n s)
unfolding parse_term Consumes
parse_term-Consumes n s room =
    subst (Consumes s) (sym (bind-some peek _ s (peek-some s room)))
      (elim (Bool-cases (is_data_op (s.mem s.ptr))) [
        | inr other ↦ rw other (other, refl)
        | inl here ↦
            rw here (Consumes-attached s n (parse_data_object s) (Moves-parse_data_object.leaves s))
      ])

-- How the loop can stand after its rounds: it has failed or faulted, it has reached the end of the
-- stream, or it stands before a byte of the stream that starts no data object.
abbrev pub Runs : Parser → Exec (Option Loop × Parser) → Type 0
Runs s fault = Unit {0}
Runs s (done (none, s')) = Unit {0}
Runs s (done (some ended, s')) = s'.stop ≤ s'.ptr
Runs s (done (some running, s')) =
    (s.ptr ≤ s'.ptr) × (s'.mem ≡ s.mem) × (s'.stop ≡ s.stop) × IsStuck s'

Runs-later :
    (s s' : Parser) (r : Exec (Option Loop × Parser)) → Further 0 s s' → Runs s' r → Runs s r
Runs-later s s' fault f h = tt
Runs-later s s' (done (none, t)) f h = tt
Runs-later s s' (done (some ended, t)) f h = h
Runs-later s s' (done (some running, t)) f h = (omega arith, h.1 ∙ f.2, h.2 ∙ f.1, h.3)

module _ (fuel : ℕ) (n : Ptr)
    (ih : (prev : Option Ptr) (t : Parser)
      → t.stop ≤ t.ptr + fuel
      → Runs t (parse_terms fuel n prev t)) where
  Runs-linked :
      (s s1 : Parser) (c : Ptr) (r : Exec (Option (Unit {0}) × Parser))
      → s.stop ≤ s.ptr + suc fuel
      → Further 1 s s1
      → Leaves 0 s1 r
      → Runs s (elim r [
        | fault ↦ fault
        | done (none, t) ↦ done (none, t)
        | done (some _, t) ↦ parse_terms fuel n (some c) t
      ])
  Runs-linked s s1 c fault h f l = tt
  Runs-linked s s1 c (done (none, t)) h f l = tt
  Runs-linked s s1 c (done (some u, t)) h f l =
      Runs-later s t (parse_terms fuel n (some c) t) (omega arith, l.1 ∙ f.1, l.2 ∙ f.2)
        (ih (some c) t (omega arith))

  Runs-found :
      (s : Parser) (prev : Option Ptr) (r : Exec (Option (Option Ptr) × Parser))
      → s.ptr < s.stop
      → s.stop ≤ s.ptr + suc fuel
      → Consumes s r
      → Runs s (elim r [
        | fault ↦ fault
        | done (none, t) ↦ done (none, t)
        | done (some found, t) ↦
            (elim found as (λ _. M Loop) [
              | none ↦ parse_terms fuel n prev
              | some c ↦ link_node n prev c >> parse_terms fuel n (some c)
            ])
              t
      ])
  unfolding Consumes
  Runs-found s prev fault room h c = tt
  Runs-found s prev (done (none, t)) room h c = tt
  Runs-found s prev (done (some none, t)) room h c =
      subst (λ x. Runs s (parse_terms fuel n prev x)) (sym c.1)
        (subst (Runs s) (sym (parse_terms_forever fuel n prev s (room, c.0)))
          (omega arith, refl, refl, (room, c.0)))
  Runs-found s prev (done (some (some p), t)) room h c =
      Runs-linked s t p (link_node n prev p t) h c ((Moves-link_node n prev p).leaves t)

-- With as many rounds as there are bytes left, the loop of `aml_parse` fails, faults, ends at the
-- end of the stream, or is still running before a byte of the stream that starts no data object:
-- nothing else keeps it from ending.
pub parse_terms-Runs :
    (fuel : ℕ) (n : Ptr) (prev : Option Ptr) (s : Parser)
    → s.stop ≤ s.ptr + fuel
    → Runs s (parse_terms fuel n prev s)
unfolding parse_terms
parse_terms-Runs zero n prev s h = let over : eof s ≡ true = ground arith in rw over (omega arith)
parse_terms-Runs (suc fuel) n prev s h = elim (Bool-cases (eof s)) [
  | inl over ↦ rw over (ground arith)
  | inr more ↦
      let room : s.ptr < s.stop = ground arith in
      rw more (
        Runs-found fuel n (parse_terms-Runs fuel n) s prev (parse_term n s) room h
          (parse_term-Consumes n s room))
]
