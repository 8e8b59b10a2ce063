-- ===== src/Base/Entries.antt =====
-- The entries of a map: in its sorted form, and by a look-up.
use mathlib.Core.Path.{◌≡◌}
use mathlib.Core.Logic.{◌⊎◌, inl, inr}
use mathlib.Core.Option.{some}
use mathlib.Core.List.{List, [], ◌∷◌, Mem, Perm, mem-cons, not-mem-nil}
use mathlib.Core.List.Perm
use mathlib.Core.Logic.Or
use mathlib.Core.Bool.{true, Bool-set}
use native.Mathlib.Omega.{arith}
use Prim.Native.String.{String}
use cloud_provider_kind.Base.Equality.{◌==◌, string_eq, Bool-cases, eq_of_==, ==-self, contains}
use cloud_provider_kind.Base.Lists.{In}
use cloud_provider_kind.Base.Dict
use cloud_provider_kind.Base.Dict.{Dict, insert_sorted, sorted, le}

In-insert_sorted :
    {V : Type 0} (k : String) (v : V) (m : Dict V) (p : String × V)
    → (p ≡ (k, v)) ⊎ In p m
    → In p (insert_sorted k v m)
unfolding insert_sorted
In-insert_sorted k v [] p (inl e) = inl e
In-insert_sorted k v [] p (inr i) = elim i [ ]
In-insert_sorted k v ((j, w) ∷ m) p h = elim (Bool-cases (le k j)) [
  | inl first ↦ rw first (elim h [ inl e ↦ inl e | inr i ↦ inr i ])
  | inr after ↦ rw after (elim h [
    | inl e ↦ inr (In-insert_sorted k v m p (inl e))
    | inr i ↦ elim i [ inl e ↦ inl e | inr i' ↦ inr (In-insert_sorted k v m p (inr i')) ]
  ])
]

pub In-sorted : {V : Type 0} (m : Dict V) (p : String × V) → In p m → In p (sorted m)
unfolding sorted
In-sorted [] p i = elim i [ ]
In-sorted ((k, v) ∷ m) p (inl e) = In-insert_sorted k v (sorted m) p (inl e)
In-sorted ((k, v) ∷ m) p (inr i) = In-insert_sorted k v (sorted m) p (inr (In-sorted m p i))

pub In-of_lookup :
    {V : Type 0} (k : String) (v : V) (m : Dict V) → Dict.lookup k m ≡ some v → In (k, v) m
unfolding Dict.lookup
In-of_lookup k v [] h = cc
In-of_lookup k v ((j, w) ∷ m) h = elim (Bool-cases (k == j)) [
  | inl same ↦
      let e : some w ≡ some v = rw same at h in let e' : k ≡ j = eq_of_== k j same in inl (cc)
  | inr other ↦ inr (In-of_lookup k v m (rw other at h))
]

pub In-of_contains : (xs : List String) (a : String) → contains xs a ≡ true → In a xs
In-of_contains [] a h = cc
In-of_contains (x ∷ xs) a h = elim (Bool-cases (a == x)) [
  | inl same ↦ inl (eq_of_== a x same)
  | inr other ↦ inr (In-of_contains xs a (rw other at h))
]

pub contains_of_In : (xs : List String) (a : String) → In a xs → contains xs a ≡ true
contains_of_In [] a i = elim i [ ]
contains_of_In (x ∷ xs) a (inl e) = rw (e, ==-self x)
contains_of_In (x ∷ xs) a (inr i) = ground (arith, contains_of_In xs a i)

contains_of_Mem : (a : String) (xs : List String) → Mem a xs → contains xs a ≡ true
contains_of_Mem a [] h = absurd (not-mem-nil h)
contains_of_Mem a (x ∷ xs) h =
    Or.elim (Bool-set _ _) (mem-cons.0 h) (λ e. rw (e, ==-self x))
      (λ t. let ih = contains_of_Mem a xs t in ground arith)

pub Mem-keys :
    {V : Type 0} (k : String) (v : V) (m : Dict V) → Dict.lookup k m ≡ some v → Mem k (Dict.keys m)
unfolding Dict.lookup Dict.keys
Mem-keys k v [] h = cc
Mem-keys k v ((j, w) ∷ m) h = elim (Bool-cases (k == j)) [
  | inl same ↦ mem-cons.1 (Or.inl (eq_of_== k j same))
  | inr other ↦ mem-cons.1 (Or.inr (Mem-keys k v m (rw other at h)))
]

-- A key of a map is among its keys in any order.
pub contains-order :
    {V : Type 0} (k : String) (v : V) (m : Dict V) (keys : List String)
    → Perm keys (Dict.keys m)
    → Dict.lookup k m ≡ some v
    → contains keys k ≡ true
contains-order k v m keys p h = contains_of_Mem k keys ((Perm.mem_iff p).1 (Mem-keys k v m h))
