-- ===== src/World/Monad.antt =====
-- Programs that call the world, with and without an `error`.
use cloud_provider_kind.Base.{Option, none, some, ◌∷◌, List, String, ◌≡◌, refl, ◌⊎◌, inl, inr}
use cloud_provider_kind.World.Actions.{Err, Result, ok, err, Action, Answer, Env, World}
use cloud_provider_kind.Config.{Config}

abbrev pub Proc {ℓ} : Type ℓ → Type ℓ
Proc A = Env → World → A × World

-- A call, and its answer.
abbrev pub perform : (a : Action) → Proc (Answer a)
perform a e w = (e.answer w.trace a, record w { trace = a ∷ w.trace })

-- The keys of a map in the order in which `range` visits them.
abbrev pub range : List String → Proc (List String)
range keys e w = (e.order w.trace keys, w)

abbrev pub runtime : Proc String
runtime e w = (e.runtime, w)

abbrev pub config : Proc Config
config e w = (w.config, w)

module _ {ℓ} {A : Type ℓ} where
  abbrev pub pure : A → Proc (Result A)
  pure a e w = (ok a, w)

  -- `return …, err`
  abbrev pub fail : Err → Proc (Result A)
  fail x e w = (err x, w)

  -- What has no `error` among its results, or whose error is kept as a value and does not return.
  abbrev pub lift : Proc A → Proc (Result A)
  lift m e w = let (a, w') = m e w in (ok a, w')

-- An `error` that may be nil.
abbrev pub check : Option Err → Result (Unit {0})
check none = ok tt
check (some x) = err x

module _ {ℓ κ} {A : Type ℓ} {B : Type κ} where
  -- `if err != nil { return …, err }` and what follows.
  abbrev pub continue : Result A → (A → Proc (Result B)) → Proc (Result B)
  continue (ok a) f e w = f a e w
  continue (err x) f e w = (err x, w)

  infixl 5 ◌>>=◌
  abbrev pub ◌>>=◌ : Proc (Result A) → (A → Proc (Result B)) → Proc (Result B)
  ◌>>=◌ m f e w = let (r, w') = m e w in continue r f e w'

infixl 5 ◌>>◌
abbrev pub ◌>>◌ {ℓ} : {B : Type ℓ} → Proc (Result (Unit {0})) → Proc (Result B) → Proc (Result B)
m >> k = m >>= λ _. k

pub Result-cases {ℓ} :
    {A : Type ℓ} (r : Result A) → ((a : A) × (r ≡ ok a)) ⊎ ((x : Err) × (r ≡ err x))
Result-cases (ok a) = inl (a, refl)
Result-cases (err x) = inr (x, refl)

-- Wherever a program ends without an error, the world satisfies `P`.
pub record Ends {ℓ} {B : Type ℓ} (P : Env → World → Type 0) (m : Proc (Result B)) : Type ℓ where
  pub at_end : (e : Env) (w : World) (b : B) → (m e w).0 ≡ ok b → P e (m e w).1

-- A chain ends as its last part does.
pub >>=-Ends {ℓ κ} :
    {A : Type ℓ} {B : Type κ} (P : Env → World → Type 0) (m : Proc (Result A))
    (f : A → Proc (Result B))
    → ((a : A) → Ends P (f a))
    → Ends P (m >>= f)
>>=-Ends P m f each = record {
  at_end = λ e w b h. elim (Result-cases (m e w).0) [
    | inl (a, done) ↦ rw done ((each a).at_end e _ b (rw done at h))
    | inr (x, failed) ↦ let wrong : err x ≡ ok b = rw failed at h in absurd (cc)
  ];
}

-- Whatever a program's result is, it leaves `P` true.
pub record Keeps {ℓ} {A : Type ℓ} (e : Env) (P : World → Type 0) (m : Proc A) : Type 0 where
  pub keep : (w : World) → P w → P (m e w).1

module _ (e : Env) (P : World → Type 0) where
  pub >>=-Keeps {ℓ κ} :
      {A : Type ℓ} {B : Type κ} (m : Proc (Result A)) (f : A → Proc (Result B))
      → Keeps e P m
      → ((a : A) → Keeps e P (f a))
      → Keeps e P (m >>= f)
  >>=-Keeps m f first each = record {
    keep = λ w h. elim (Result-cases (m e w).0) [
      | inl (a, done) ↦ rw done ((each a).keep _ (first.keep w h))
      | inr (x, failed) ↦ rw failed (first.keep w h)
    ];
  }

  -- What calls nothing leaves the world as it is.
  pub pure-Keeps {ℓ} : {A : Type ℓ} (r : Env → World → Result A) → Keeps e P (λ e w. (r e w, w))
  pure-Keeps r = record { keep = λ w h. h }

  pub lift-Keeps {ℓ} : {A : Type ℓ} (m : Proc A) → Keeps e P m → Keeps e P (lift m)
  lift-Keeps m k = record { keep = λ w h. k.keep w h }

  -- A call whose effect on the trace keeps `P`.
  pub perform-Keeps :
      (a : Action)
      → ((w : World) → P w → P (record w { trace = a ∷ w.trace }))
      → Keeps e P (perform a)
  perform-Keeps a law = record { keep = λ w h. law w h }

-- From a world that satisfies `P`, a program that ends without an error ends with `Q` of its value.
pub record Leads {ℓ} {A : Type ℓ} (e : Env) (P : World → Type 0) (m : Proc (Result A))
    (Q : A → World → Type 0) : Type ℓ where
  pub lead : (w : World) (a : A) → P w → (m e w).0 ≡ ok a → Q a (m e w).1

module _ (e : Env) where
  pub >>=-Leads {ℓ κ} :
      {A : Type ℓ} {B : Type κ} (P : World → Type 0) (m : Proc (Result A)) (Q : A → World → Type 0)
      (f : A → Proc (Result B)) (R : B → World → Type 0)
      → Leads e P m Q
      → ((a : A) → Leads e (Q a) (f a) R)
      → Leads e P (m >>= f) R
  >>=-Leads P m Q f R first each = record {
    lead = λ w b h done. elim (Result-cases (m e w).0) [
      | inl (a, ran) ↦ rw ran ((each a).lead _ b (first.lead w a h ran) (rw ran at done))
      | inr (x, failed) ↦ let wrong : err x ≡ ok b = rw failed at done in absurd (cc)
    ];
  }

  -- A program that keeps `P` leads from `P` to `P`.
  pub Keeps-Leads {ℓ} :
      {A : Type ℓ} (P : World → Type 0) (m : Proc (Result A)) → Keeps e P m → Leads e P m (λ _. P)
  Keeps-Leads P m k = record { lead = λ w a h done. k.keep w h }

  -- A fact that does not speak of the world is a hypothesis.
  pub given-Leads {ℓ} :
      {A : Type ℓ} (K : Type 0) (m : Proc (Result A)) (R : A → World → Type 0)
      → (K → Leads e (λ _. Unit {0}) m R)
      → Leads e (λ _. K) m R
  given-Leads K m R each = record { lead = λ w a k done. (each k).lead w a tt done }
