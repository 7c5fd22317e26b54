-- ===== src/Aml/Stream/Pkglen.antt =====
-- Kernel/drivers/aml/aml_parser.c: `aml_parse_pkglen` against the encoding of package lengths.
use aos.Base.{ℕ, ◌+◌, ◌*◌, ◌/◌, ◌%◌, ◌^◌, ◌≤◌, ◌<◌, ◌≡◌, ◌≢◌, refl, sym, ◌∙◌, arith}
use aos.Base.{false, List, [], ◌∷◌, some, bit_and, ltb, ◌==◌}
use aos.Base.{if◌then◌else◌, length, done}
use aos.Base.Bits.{low_masks}
use mathlib.Core.Path.{subst}
use native.Mathlib.Decide.{dec_lt}
use aos.Aml.{Parser, bind-some}
use aos.Aml.Stream.{next, pkglen_bytes, parse_pkglen}
use aos.Aml.Stream.Numbers.{IsByteMem, moved, Fails, next-some, same_answer, step}

-- The bytes of a package length below 2 ^ 28: up to 63 in one byte, else four bits in the first
-- byte, whose top bits count the bytes that follow, lowest first.
unfoldable pub encode_pkglen : ℕ → List ℕ
encode_pkglen n =
    if ltb n 64
    then n ∷ []
    else if ltb n (2 ^ 12)
    then (64 + n % 16) ∷ (n / 16) ∷ []
    else if ltb n (2 ^ 20)
    then (128 + n % 16) ∷ (n / 16 % 256) ∷ (n / 2 ^ 12) ∷ []
    else (192 + n % 16) ∷ (n / 16 % 256) ∷ (n / 2 ^ 12 % 256) ∷ (n / 2 ^ 20) ∷ []

-- The bytes stand in memory from the address on.
abbrev pub Holds : (ℕ → ℕ) → ℕ → List ℕ → Type 0
Holds mem a [] = Unit {0}
Holds mem a (b ∷ bs) = (mem a ≡ b) × Holds mem (a + 1) bs

module _ (s : Parser) (bytes : IsByteMem s) (p : ℕ) (room : p < s.stop) where
  pkglen_one : s.mem p < 64 → parse_pkglen (moved s p) ≡ done (some (s.mem p), moved s (p + 1))
  unfolding parse_pkglen
  pkglen_one h =
      bind-some next _ (moved s p) (next-some s p room)
      ∙ ground (arith, low_masks (s.mem p) (bytes p))

  pkglen_more :
      (k : ℕ)
      → 0 < k
      → k < 4
      → s.mem p / 16 ≡ 4 * k
      → parse_pkglen (moved s p) ≡ pkglen_bytes k 0 (s.mem p % 16) (moved s (p + 1))
  unfolding parse_pkglen
  pkglen_more k lo hi e =
      let (m0, m1, m2) = low_masks (s.mem p) (bytes p) in
      let follow : s.mem p / 64 ≡ k = omega arith in
      let some_follow : (k == 0) ≡ false = ground arith in
      let at_most : ltb 3 k ≡ false = ground arith in
      let plain : bit_and (s.mem p / 16) 3 ≡ 0 = omega (arith, m1) in
      bind-some next _ (moved s p) (next-some s p room)
      ∙ rw (follow, some_follow, at_most, plain, m2) refl

  -- Where bytes follow, the two bits below the count are reserved.
  pkglen_reserved : 64 ≤ s.mem p → s.mem p / 16 % 4 ≢ 0 → Fails (parse_pkglen (moved s p))
  unfolding parse_pkglen
  pkglen_reserved h r = subst Fails (sym (bind-some next _ (moved s p) (next-some s p room))) (
      let some_follow : (s.mem p / 64 == 0) ≡ false = ground arith in
      let at_most : ltb 3 (s.mem p / 64) ≡ false = ground (arith, bytes p) in
      let m1 = (low_masks (s.mem p) (bytes p)).1 in
      let marked : (bit_and (s.mem p / 16) 3 == 0) ≡ false = ground (arith, m1) in
      rw (some_follow, at_most, marked) tt)

  abbrev Answer : ℕ → ℕ → Type 0
  Answer n k = parse_pkglen (moved s p) ≡ done (some n, moved s (p + k))

  pkglen_two : p + 2 ≤ s.stop → s.mem p / 16 ≡ 4 → Answer (s.mem p % 16 + s.mem (p + 1) * 2 ^ 4) 2
  unfolding pkglen_bytes
  pkglen_two fit e =
      pkglen_more 1 (omega arith) (omega arith) (omega arith)
      ∙ step s bytes 32 4 (p + 1) _ _ (omega arith) (omega arith) (omega (arith, bytes (p + 1)))
      ∙ same_answer s _ _ _ _ refl (omega arith)

  pkglen_three :
      p + 3 ≤ s.stop
      → s.mem p / 16 ≡ 8
      → Answer (s.mem p % 16 + s.mem (p + 1) * 2 ^ 4 + s.mem (p + 1 + 1) * 2 ^ 12) 3
  unfolding pkglen_bytes
  pkglen_three fit e =
      let b1 = bytes (p + 1) in
      let b2 = bytes (p + 1 + 1) in
      pkglen_more 2 (omega arith) (omega arith) (omega arith)
      ∙ step s bytes 32 4 _ _ _ (omega arith) (omega arith) (omega arith)
      ∙ step s bytes 32 12 _ _ _ (omega arith) (omega arith) (omega arith)
      ∙ same_answer s _ _ _ _ refl (omega arith)

  pkglen_four :
      p + 4 ≤ s.stop
      → s.mem p / 16 ≡ 12
      → Answer
          (s.mem p % 16
            + s.mem (p + 1) * 2 ^ 4
            + s.mem (p + 1 + 1) * 2 ^ 12
            + s.mem (p + 1 + 1 + 1) * 2 ^ 20)
          4
  unfolding pkglen_bytes
  pkglen_four fit e =
      let b1 = bytes (p + 1) in
      let b2 = bytes (p + 1 + 1) in
      let b3 = bytes (p + 1 + 1 + 1) in
      pkglen_more 3 (omega arith) (omega arith) (omega arith)
      ∙ step s bytes 32 4 _ _ _ (omega arith) (omega arith) (omega arith)
      ∙ step s bytes 32 12 _ _ _ (omega arith) (omega arith) (omega arith)
      ∙ step s bytes 32 20 _ _ _ (omega arith) (omega arith) (omega arith)
      ∙ same_answer s _ _ _ _ refl (omega arith)

module _ (s : Parser) (n : ℕ) (bytes : IsByteMem s) (small : n < 2 ^ 28) where
  abbrev ReadsBack : List ℕ → Type 0
  ReadsBack l =
      Holds s.mem s.ptr l
      → s.ptr + length l ≤ s.stop
      → parse_pkglen s ≡ done (some n, moved s (s.ptr + length l))

  via : (l : List ℕ) → encode_pkglen n ≡ l → ReadsBack l → ReadsBack (encode_pkglen n)
  via l e h = subst ReadsBack (sym e) h

  reads_back : ReadsBack (encode_pkglen n)
  unfolding encode_pkglen
  reads_back = elim (dec_lt n 64) [
    | yes one ↦ via (n ∷ []) (ground arith) (λ held fit.
        pkglen_one s bytes s.ptr (omega arith) (omega (arith, held.0))
        ∙ same_answer s _ _ _ _ held.0 refl)
    | no more ↦ elim (dec_lt n (2 ^ 12)) [
      | yes two ↦ via ((64 + n % 16) ∷ (n / 16) ∷ []) (ground arith) (λ held fit.
          pkglen_two s bytes s.ptr (omega arith) fit (omega (arith, held))
          ∙ same_answer s _ _ _ _ (omega (arith, held)) refl)
      | no more2 ↦ elim (dec_lt n (2 ^ 20)) [
        | yes three ↦
            via ((128 + n % 16) ∷ (n / 16 % 256) ∷ (n / 2 ^ 12) ∷ []) (ground arith) (λ held fit.
              pkglen_three s bytes s.ptr (omega arith) fit (omega (arith, held))
              ∙ same_answer s _ _ _ _ (omega (arith, held)) refl)
        | no four ↦
            via ((192 + n % 16) ∷ (n / 16 % 256) ∷ (n / 2 ^ 12 % 256) ∷ (n / 2 ^ 20) ∷ [])
              (ground arith)
              (λ held fit.
                pkglen_four s bytes s.ptr (omega arith) fit (omega (arith, held))
                ∙ same_answer s _ _ _ _ (omega (arith, held)) refl)
      ]
    ]
  ]

-- Over memory whose cells are bytes, `aml_parse_pkglen` reads back every length below 2 ^ 28 from
-- its encoding, wherever that stands in the stream before its end, and moves behind it.
pub parse-encode_pkglen :
    (s : Parser) (n : ℕ)
    → IsByteMem s
    → n < 2 ^ 28
    → Holds s.mem s.ptr (encode_pkglen n)
    → s.ptr + length (encode_pkglen n) ≤ s.stop
    → parse_pkglen s ≡ done (some n, moved s (s.ptr + length (encode_pkglen n)))
parse-encode_pkglen s n bytes small held fit = reads_back s n bytes small held fit
