-- ===== src/Base/Sorted.antt =====
-- A map sorted by its keys: it depends only on what the map holds.
use Prim.Native.String.{String}
use mathlib.Core.Path.{◌≡◌, refl, sym, ap, ◌∙◌}
use mathlib.Core.Logic.{inl, inr}
use mathlib.Core.Bool.{true, false}
use mathlib.Core.Option.{none, some}
use mathlib.Core.List.{[], ◌∷◌}
use cloud_provider_kind.Base.Equality.{
  ◌==◌, string_eq, Bool-cases, eq_of_==, ==-self, ==-ne, if◌then◌else◌,
}
use cloud_provider_kind.Base.Dict
use cloud_provider_kind.Base.Dict.{Dict, insert_sorted, sorted, le}
use cloud_provider_kind.Base.TextOrder.{le_refl, le_total, le_trans, le_antisymm}

module _ {V : Type 0} where
  -- No key occurs twice.
  unfoldable pub HasDistinctKeys : Dict V → Type 0
  HasDistinctKeys [] = Unit
  HasDistinctKeys ((k, v) ∷ m) = (Dict.lookup k m ≡ none) × HasDistinctKeys m

  -- Every key comes after `k`.
  unfoldable IsAbove : String → Dict V → Type 0
  IsAbove k [] = Unit
  IsAbove k ((j, v) ∷ m) = (le j k ≡ false) × IsAbove k m

  unfoldable IsAscending : Dict V → Type 0
  unfolding IsAbove
  IsAscending [] = Unit
  IsAscending ((k, v) ∷ m) = IsAbove k m × IsAscending m

  pub insert-HasDistinctKeys :
      (k : String) (v : V) (m : Dict V) → HasDistinctKeys m → HasDistinctKeys (Dict.insert k v m)
  unfolding Dict.insert HasDistinctKeys Dict.lookup
  insert-HasDistinctKeys k v [] h = (refl, tt)
  insert-HasDistinctKeys k v ((j, w) ∷ m) (new, h) = elim (Bool-cases (k == j)) [
    | inl same ↦ rw same (ap (λ x. Dict.lookup x m) (eq_of_== k j same) ∙ new, h)
    | inr other ↦
        let apart : (j == k) ≡ false = ==-ne j k (λ p.
          let wrong : true ≡ false = sym (==-self k) ∙ ap (λ x. k == x) (sym p) ∙ other in
          absurd (cc)) in
        rw other (Dict.lookup-insert j k v m ∙ rw apart new, insert-HasDistinctKeys k v m h)
  ]

  lookup_above : (k i : String) (m : Dict V) → IsAbove k m → le i k ≡ true → Dict.lookup i m ≡ none
  unfolding IsAbove Dict.lookup
  lookup_above k i [] a h = refl
  lookup_above k i ((j, v) ∷ m) (b, a) h = elim (Bool-cases (i == j)) [
    | inl same ↦
        let wrong : true ≡ false = sym h ∙ ap (λ x. le x k) (eq_of_== i j same) ∙ b in absurd (cc)
    | inr other ↦ rw other (lookup_above k i m a h)
  ]

  IsAbove-trans : (j k : String) (m : Dict V) → le k j ≡ true → IsAbove j m → IsAbove k m
  unfolding IsAbove
  IsAbove-trans j k [] h a = tt
  IsAbove-trans j k ((i, v) ∷ m) h (b, a) = (
    elim (Bool-cases (le i k)) [
      | inl low ↦ let wrong : true ≡ false = sym (le_trans i k j low h) ∙ b in absurd (cc)
      | inr high ↦ high
    ],
    IsAbove-trans j k m h a,
  )

  insert_sorted-IsAbove :
      (j k : String) (v : V) (m : Dict V)
      → le k j ≡ false
      → IsAbove j m
      → IsAbove j (insert_sorted k v m)
  unfolding IsAbove insert_sorted
  insert_sorted-IsAbove j k v [] h a = (h, tt)
  insert_sorted-IsAbove j k v ((i, w) ∷ m) h (b, a) = elim (Bool-cases (le k i)) [
    | inl first ↦ rw first (h, (b, a))
    | inr after ↦ rw after (b, insert_sorted-IsAbove j k v m h a)
  ]

  insert_sorted-IsAscending :
      (k : String) (v : V) (m : Dict V)
      → Dict.lookup k m ≡ none
      → IsAscending m
      → IsAscending (insert_sorted k v m)
  unfolding IsAscending insert_sorted IsAbove Dict.lookup
  insert_sorted-IsAscending k v [] new a = (tt, tt)
  insert_sorted-IsAscending k v ((j, w) ∷ m) new (b, a) = elim (Bool-cases (k == j)) [
    | inl same ↦ let wrong : some w ≡ none = rw same at new in absurd (cc)
    | inr other ↦ elim (Bool-cases (le k j)) [
      | inl first ↦ elim (Bool-cases (le j k)) [
        | inl back ↦
            let wrong : true ≡ false =
              sym (==-self k) ∙ ap (λ x. k == x) (le_antisymm k j first back) ∙ other in
            absurd (cc)
        | inr above ↦ rw first ((above, IsAbove-trans j k m first b), (b, a))
      ]
      | inr after ↦ rw after (
        insert_sorted-IsAbove j k v m after b,
        insert_sorted-IsAscending k v m (rw other at new) a,
      )
    ]
  ]

  lookup-insert_sorted :
      (i k : String) (v : V) (m : Dict V)
      → Dict.lookup i (insert_sorted k v m) ≡ (if i == k then some v else Dict.lookup i m)
  unfolding Dict.lookup insert_sorted
  lookup-insert_sorted i k v [] = refl
  lookup-insert_sorted i k v ((j, w) ∷ m) = elim (Bool-cases (le k j)) [
    | inl first ↦ rw first refl
    | inr after ↦
        rw (after, lookup-insert_sorted i k v m)
          (elim (Bool-cases (i == j)) [
            | inr other ↦ rw other refl
            | inl same ↦ elim (Bool-cases (i == k)) [
              | inr other ↦ rw (same, other) refl
              | inl both ↦
                  let p : k ≡ j = sym (eq_of_== i k both) ∙ eq_of_== i j same in
                  let wrong : true ≡ false = sym (le_refl k) ∙ ap (le k) p ∙ after in absurd (cc)
            ]
          ])
  ]

  pub lookup-sorted : (i : String) (m : Dict V) → Dict.lookup i (sorted m) ≡ Dict.lookup i m
  unfolding Dict.lookup sorted
  lookup-sorted i [] = refl
  lookup-sorted i ((k, v) ∷ m) =
      lookup-insert_sorted i k v (sorted m)
      ∙ ap (λ o. if i == k then some v else o) (lookup-sorted i m)

  sorted-IsAscending : (m : Dict V) → HasDistinctKeys m → IsAscending (sorted m)
  unfolding HasDistinctKeys IsAscending sorted
  sorted-IsAscending [] h = tt
  sorted-IsAscending ((k, v) ∷ m) (new, h) =
      insert_sorted-IsAscending k v (sorted m) (lookup-sorted k m ∙ new) (sorted-IsAscending m h)

  first_key :
      (k j : String) (v w : V) (m n : Dict V)
      → IsAbove j n
      → Dict.lookup k ((k, v) ∷ m) ≡ Dict.lookup k ((j, w) ∷ n)
      → le k j ≡ true
      → k ≡ j
  unfolding Dict.lookup
  first_key k j v w m n above same low = elim (Bool-cases (k == j)) [
    | inl here ↦ eq_of_== k j here
    | inr other ↦
        let found : some v ≡ Dict.lookup k n = rw (==-self k, other) at same in
        let wrong : some v ≡ none = found ∙ lookup_above j k n above low in absurd (cc)
  ]

  same_value :
      (k : String) (v w : V) (m n : Dict V)
      → Dict.lookup k ((k, v) ∷ m) ≡ Dict.lookup k ((k, w) ∷ n)
      → v ≡ w
  unfolding Dict.lookup
  same_value k v w m n same = let found : some v ≡ some w = rw (==-self k) at same in cc

  same_tails :
      (k : String) (v w : V) (m n : Dict V)
      → IsAbove k m
      → IsAbove k n
      → ((i : String) → Dict.lookup i ((k, v) ∷ m) ≡ Dict.lookup i ((k, w) ∷ n))
      → (i : String) → Dict.lookup i m ≡ Dict.lookup i n
  unfolding Dict.lookup
  same_tails k v w m n above above' same i = elim (Bool-cases (i == k)) [
    | inl here ↦
        let low : le i k ≡ true = ap (le i) (sym (eq_of_== i k here)) ∙ le_refl i in
        lookup_above k i m above low ∙ sym (lookup_above k i n above' low)
    | inr other ↦ rw other at (same i)
  ]

  ascending_unique :
      (m n : Dict V)
      → IsAscending m
      → IsAscending n
      → ((i : String) → Dict.lookup i m ≡ Dict.lookup i n)
      → m ≡ n
  unfolding IsAscending Dict.lookup
  ascending_unique [] [] a b same = refl
  ascending_unique [] ((j, w) ∷ n) a b same =
      let wrong : none ≡ some w = same j ∙ rw (==-self j) refl in absurd (cc)
  ascending_unique ((k, v) ∷ m) [] a b same =
      let wrong : some v ≡ none = (sym (rw (==-self k) refl)) ∙ same k in absurd (cc)
  ascending_unique ((k, v) ∷ m) ((j, w) ∷ n) (above, a) (above', b) same =
      let key : k ≡ j = elim (Bool-cases (le k j)) [
        | inl low ↦ first_key k j v w m n above' (same k) low
        | inr high ↦ sym (first_key j k w v n m above (sym (same j)) (le_total k j high))
      ] in
      let same' =
        λ (i : String). same i ∙ ap (λ (x : String). Dict.lookup i ((x, w) ∷ n)) (sym key) in
      let rest = ascending_unique m n a b (same_tails k v w m n above (rw key above') same') in
      let value = same_value k v w m n (same' k) in rw (key, value, rest) refl

  -- Two maps without a key that occurs twice, which hold the same, are the same when sorted.
  pub sorted_unique :
      (m n : Dict V)
      → HasDistinctKeys m
      → HasDistinctKeys n
      → ((i : String) → Dict.lookup i m ≡ Dict.lookup i n)
      → sorted m ≡ sorted n
  sorted_unique m n a b same =
      ascending_unique (sorted m) (sorted n) (sorted-IsAscending m a) (sorted-IsAscending n b)
        (λ i. lookup-sorted i m ∙ same i ∙ sym (lookup-sorted i n))
