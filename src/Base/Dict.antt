-- ===== src/Base/Dict.antt =====
-- Go maps as association lists. Proofs elsewhere go by the laws.
use Prim.Native.Nat.{Ordering}
use Prim.Native.String.{String, compare, ◌++◌ as ◌<>◌}
use mathlib.Core.List
use mathlib.Core.Path.{◌≡◌, refl}
use mathlib.Core.Bool.{Bool, true, false}
use mathlib.Core.Option.{Option, none, some}
use mathlib.Core.List.{[], ◌∷◌}
use native.Mathlib.Omega.{arith}
use cloud_provider_kind.Base.Equality.{◌==◌, string_eq, if◌then◌else◌}

abbrev pub Dict {ℓ} : Type ℓ → Type ℓ
Dict V = List.List (String × V)

module _ {ℓ} {V : Type ℓ} where
  unfoldable pub keys : Dict V → List.List String
  keys [] = []
  keys ((k, v) ∷ m) = k ∷ keys m

  -- `v, ok := m[k]`
  unfoldable pub lookup : String → Dict V → Option V
  lookup k [] = none
  lookup k ((j, v) ∷ m) = if k == j then some v else lookup k m

  -- `m[k] = v`
  unfoldable pub insert : String → V → Dict V → Dict V
  insert k v [] = (k, v) ∷ []
  insert k v ((j, w) ∷ m) = if k == j then (k, v) ∷ m else (j, w) ∷ insert k v m

  -- `delete(m, k)`
  unfoldable pub erase : String → Dict V → Dict V
  erase k [] = []
  erase k ((j, w) ∷ m) = let rest = erase k m in if k == j then rest else (j, w) ∷ rest

  pub lookup-insert :
      (j k : String) (v : V) (m : Dict V)
      → lookup j (insert k v m) ≡ (if j == k then some v else lookup j m)
  unfolding insert lookup
  lookup-insert j k v [] = refl
  lookup-insert j k v (_ ∷ m) = ground (arith, lookup-insert j k v m)

  pub lookup-erase :
      (j k : String) (m : Dict V) → lookup j (erase k m) ≡ (if j == k then none else lookup j m)
  unfolding erase lookup
  lookup-erase j k [] = ground arith
  lookup-erase j k (_ ∷ m) = ground (arith, lookup-erase j k m)

-- `text/template` and `fmt` visit the keys of a map in the order of their bytes.
abbrev pub le : String → String → Bool
le s t = elim (compare s t) [ Ordering.gt ↦ false | _ ↦ true ]

unfoldable pub insert_sorted {ℓ} : {V : Type ℓ} → String → V → Dict V → Dict V
insert_sorted k v [] = (k, v) ∷ []
insert_sorted k v ((j, w) ∷ m) =
    if le k j then (k, v) ∷ (j, w) ∷ m else (j, w) ∷ insert_sorted k v m

unfoldable pub sorted {ℓ} : {V : Type ℓ} → Dict V → Dict V
unfolding insert_sorted
sorted [] = []
sorted ((k, v) ∷ m) = insert_sorted k v (sorted m)

-- The entries as `%v` prints them, each behind a space but the first.
print_entries : Dict String → String
print_entries [] = ""
print_entries ((k, v) ∷ []) = k <> (":" <> v)
print_entries ((k, v) ∷ m) = k <> (":" <> (v <> (" " <> print_entries m)))

-- A map as `%v` prints it.
unfoldable pub print_map : Dict String → String
unfolding print_entries sorted
print_map m = "map[" <> (print_entries (sorted m) <> "]")
