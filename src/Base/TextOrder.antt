-- ===== src/Base/TextOrder.antt =====
-- The order of texts by their characters is total.
use Prim.Native.Nat.compare as compare_ℕ
use Prim.Native.Nat.{ℕ, zero, suc, Ordering, ◌<◌, compare as compare_ℕ}
use Prim.Native.Char.{Char, code}
use Prim.Native.String.compare
use Prim.Native.String.{String, [], ◌∷◌, compare, then}
use mathlib.Core.Path.{◌≡◌, refl, sym, ap, ◌∙◌}
use mathlib.Core.Bool.{Bool, true, false}
use native.Mathlib.Omega.{arith}
use text.Mathlib.TextEquality.{codes_equal}
use cloud_provider_kind.Base.Dict.{le}

-- How two numbers compare, and the other way round.
data Compared (m n : ℕ) : Type 0 where
  below : m < n → compare_ℕ m n ≡ Ordering.lt → compare_ℕ n m ≡ Ordering.gt → Compared m n
  same : m ≡ n → compare_ℕ m n ≡ Ordering.eq → compare_ℕ n m ≡ Ordering.eq → Compared m n
  above : n < m → compare_ℕ m n ≡ Ordering.gt → compare_ℕ n m ≡ Ordering.lt → Compared m n

compared : (m n : ℕ) → Compared m n
compared zero zero = same refl compare_ℕ.zero-zero compare_ℕ.zero-zero
compared zero (suc n) = below (omega arith) (compare_ℕ.zero-suc n) (compare_ℕ.suc-zero n)
compared (suc m) zero = above (omega arith) (compare_ℕ.suc-zero m) (compare_ℕ.zero-suc m)
compared (suc m) (suc n) =
    let there = compare_ℕ.suc-suc m n in
    let back = compare_ℕ.suc-suc n m in
    elim (compared m n) [
      | below l p q ↦ below (omega (arith, l)) (there ∙ p) (back ∙ q)
      | same l p q ↦ same (omega (arith, l)) (there ∙ p) (back ∙ q)
      | above l p q ↦ above (omega (arith, l)) (there ∙ p) (back ∙ q)
    ]

-- `le` by the clauses of `compare`.
abbrev not_gt : Ordering → Bool
not_gt o = elim o [ Ordering.gt ↦ false | _ ↦ true ]

nil-le : (t : String) → le [] t ≡ true
nil-le [] = ap not_gt compare.nil-nil
nil-le (d ∷ t) = ap not_gt (compare.nil-cons d t)

cons-nle-nil : (c : Char) (s : String) → le (c ∷ s) [] ≡ false
cons-nle-nil c s = ap not_gt (compare.cons-nil c s)

cons-le-cons :
    (c d : Char) (s t : String) (o : Ordering)
    → compare_ℕ (code c) (code d) ≡ o
    → le (c ∷ s) (d ∷ t) ≡ not_gt (then o (compare s t))
cons-le-cons c d s t o h =
    ap not_gt (compare.cons-cons c d s t) ∙ ap (λ p. not_gt (then p (compare s t))) h

-- The first characters decide, or else the rest.
data Heads (c d : Char) (s t : String) : Type 0 where
  smaller : code c < code d → le (c ∷ s) (d ∷ t) ≡ true → le (d ∷ t) (c ∷ s) ≡ false → Heads c d s t
  equal :
      code c ≡ code d
      → compare_ℕ (code c) (code d) ≡ Ordering.eq
      → le (c ∷ s) (d ∷ t) ≡ le s t
      → le (d ∷ t) (c ∷ s) ≡ le t s
      → Heads c d s t
  greater : code d < code c → le (c ∷ s) (d ∷ t) ≡ false → le (d ∷ t) (c ∷ s) ≡ true → Heads c d s t

heads : (c d : Char) (s t : String) → Heads c d s t
heads c d s t = elim (compared (code c) (code d)) [
  | below l p q ↦ smaller l (cons-le-cons c d s t _ p) (cons-le-cons d c t s _ q)
  | same l p q ↦ equal l p (cons-le-cons c d s t _ p) (cons-le-cons d c t s _ q)
  | above l p q ↦ greater l (cons-le-cons c d s t _ p) (cons-le-cons d c t s _ q)
]

pub le_total : (s t : String) → le s t ≡ false → le t s ≡ true
le_total [] t h = let wrong : true ≡ false = sym (nil-le t) ∙ h in absurd (cc)
le_total (c ∷ s) [] h = nil-le (c ∷ s)
le_total (c ∷ s) (d ∷ t) h = elim (heads c d s t) [
  | smaller l p q ↦ let wrong : true ≡ false = sym p ∙ h in absurd (cc)
  | equal l o p q ↦ q ∙ le_total s t (sym p ∙ h)
  | greater l p q ↦ q
]

pub le_trans : (s t u : String) → le s t ≡ true → le t u ≡ true → le s u ≡ true
le_trans [] t u h k = nil-le u
le_trans (c ∷ s) [] u h k = let wrong : false ≡ true = sym (cons-nle-nil c s) ∙ h in absurd (cc)
le_trans (c ∷ s) (d ∷ t) [] h k =
    let wrong : false ≡ true = sym (cons-nle-nil d t) ∙ k in absurd (cc)
le_trans (c ∷ s) (d ∷ t) (e ∷ u) h k = elim (heads c e s u) [
  | smaller l p q ↦ p
  | equal l o p q ↦ elim (heads c d s t) [
    | smaller l' p' q' ↦ elim (heads d e t u) [
      | smaller l'' p'' q'' ↦ absurd (omega (arith, l, l', l''))
      | equal l'' o'' p'' q'' ↦ absurd (omega (arith, l, l', l''))
      | greater l'' p'' q'' ↦ let wrong : false ≡ true = sym p'' ∙ k in absurd (cc)
    ]
    | equal l' o' p' q' ↦ elim (heads d e t u) [
      | smaller l'' p'' q'' ↦ absurd (omega (arith, l, l', l''))
      | equal l'' o'' p'' q'' ↦ p ∙ le_trans s t u (sym p' ∙ h) (sym p'' ∙ k)
      | greater l'' p'' q'' ↦ let wrong : false ≡ true = sym p'' ∙ k in absurd (cc)
    ]
    | greater l' p' q' ↦ let wrong : false ≡ true = sym p' ∙ h in absurd (cc)
  ]
  | greater l p q ↦ elim (heads c d s t) [
    | smaller l' p' q' ↦ elim (heads d e t u) [
      | smaller l'' p'' q'' ↦ absurd (omega (arith, l, l', l''))
      | equal l'' o'' p'' q'' ↦ absurd (omega (arith, l, l', l''))
      | greater l'' p'' q'' ↦ let wrong : false ≡ true = sym p'' ∙ k in absurd (cc)
    ]
    | equal l' o' p' q' ↦ elim (heads d e t u) [
      | smaller l'' p'' q'' ↦ absurd (omega (arith, l, l', l''))
      | equal l'' o'' p'' q'' ↦ absurd (omega (arith, l, l', l''))
      | greater l'' p'' q'' ↦ let wrong : false ≡ true = sym p'' ∙ k in absurd (cc)
    ]
    | greater l' p' q' ↦ let wrong : false ≡ true = sym p' ∙ h in absurd (cc)
  ]
]

pub le_antisymm : (s t : String) → le s t ≡ true → le t s ≡ true → s ≡ t
le_antisymm [] [] h k = refl
le_antisymm [] (d ∷ t) h k = let wrong : false ≡ true = sym (cons-nle-nil d t) ∙ k in absurd (cc)
le_antisymm (c ∷ s) [] h k = let wrong : false ≡ true = sym (cons-nle-nil c s) ∙ h in absurd (cc)
le_antisymm (c ∷ s) (d ∷ t) h k = elim (heads c d s t) [
  | smaller l p q ↦ let wrong : false ≡ true = sym q ∙ k in absurd (cc)
  | equal l o p q ↦ λ i. codes_equal c d o i ∷ le_antisymm s t (sym p ∙ h) (sym q ∙ k) i
  | greater l p q ↦ let wrong : false ≡ true = sym p ∙ h in absurd (cc)
]

pub le_refl : (s : String) → le s s ≡ true
le_refl [] = nil-le []
le_refl (c ∷ s) = elim (heads c c s s) [
  | smaller l p q ↦ p
  | equal l o p q ↦ p ∙ le_refl s
  | greater l p q ↦ q
]
