-- ===== src/Base/Family.antt =====
-- Families by number, such as the states of goroutines.
use Prim.Native.Nat.{ℕ}
use mathlib.Core.Path.{◌≡◌, refl}
use mathlib.Core.Logic.{◌≢◌, ◌⊎◌, inl, inr}
use cloud_provider_kind.Base.Equality.{
  ◌==◌, nat_eq, if◌then◌else◌, Bool-cases, eq_of_==, ne_of_==, ==-self, ==-ne,
}

module _ {ℓ} {A : Type ℓ} where
  -- The family with another state for one number.
  unfoldable pub put : ℕ → A → (ℕ → A) → ℕ → A
  put i a f j = if j == i then a else f j

  pub put-cases :
      (i j : ℕ) (a : A) (f : ℕ → A)
      → ((j ≡ i) × (put i a f j ≡ a)) ⊎ ((j ≢ i) × (put i a f j ≡ f j))
  unfolding put
  put-cases i j a f = elim (Bool-cases (j == i)) [
    | inl same ↦ inl (eq_of_== j i same, rw same refl)
    | inr other ↦ inr (ne_of_== j i other, rw other refl)
  ]

  pub put_self : (i : ℕ) (a : A) (f : ℕ → A) → put i a f i ≡ a
  unfolding put
  put_self i a f = rw (==-self i) refl

  pub put_other : (i j : ℕ) (a : A) (f : ℕ → A) → j ≢ i → put i a f j ≡ f j
  unfolding put
  put_other i j a f other = rw (==-ne j i other) refl
