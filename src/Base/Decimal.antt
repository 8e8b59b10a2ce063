-- ===== src/Base/Decimal.antt =====
-- `strconv.Itoa` and `%d`, for numbers that are not negative.
use Prim.Native.Nat.{ℕ, zero, suc, ◌+◌, ◌-◌, ◌*◌, ◌/◌, ◌%◌, ◌<◌}
use Prim.Native.Char.{Char, code}
use Prim.Native.String.{String}
use mathlib.Core.Path.{◌≡◌, refl, sym, ◌∙◌, ap}
use mathlib.Core.Logic.{◌≢◌}
use native.Mathlib.Omega.{arith}
use cloud_provider_kind.Base.Equality.{◌==◌, nat_eq, if◌then◌else◌}
use cloud_provider_kind.Base.Text.{nth_char, Lacks}

-- The character of a number below ten.
pub digit : ℕ → Char
digit d = nth_char "0123456789" d

-- The digits of `n` in front of `s`; `fuel` above `n` is enough.
itoa_loop : ℕ → ℕ → String → String
itoa_loop zero n s = s
itoa_loop (suc fuel) n s =
    let s' = String.◌∷◌ (digit (n % 10)) s in
    let rest = itoa_loop fuel (n / 10) s' in if n / 10 == 0 then s' else rest

unfoldable pub itoa : ℕ → String
unfolding itoa_loop digit
itoa n = itoa_loop (suc n) n String.[]

-- The number that digits spell behind `n`.
pub value : ℕ → String → ℕ
value n String.[] = n
value n (String.◌∷◌ c s) = value (n * 10 + (code c - b'0')) s

code-digit : (d : ℕ) → d < 10 → code (digit d) ≡ b'0' + d
unfolding digit
code-digit zero h = refl
code-digit (suc zero) h = refl
code-digit (suc (suc zero)) h = refl
code-digit (suc (suc (suc zero))) h = refl
code-digit (suc (suc (suc (suc zero)))) h = refl
code-digit (suc (suc (suc (suc (suc zero))))) h = refl
code-digit (suc (suc (suc (suc (suc (suc zero)))))) h = refl
code-digit (suc (suc (suc (suc (suc (suc (suc zero))))))) h = refl
code-digit (suc (suc (suc (suc (suc (suc (suc (suc zero)))))))) h = refl
code-digit (suc (suc (suc (suc (suc (suc (suc (suc (suc zero))))))))) h = refl
code-digit (suc (suc (suc (suc (suc (suc (suc (suc (suc (suc d)))))))))) h = absurd (omega arith)

value-digit :
    (n m : ℕ) (s : String) → value m (String.◌∷◌ (digit (n % 10)) s) ≡ value (m * 10 + n % 10) s
unfolding value
value-digit n m s = ap (λ (k : ℕ). value k s) (omega (arith, code-digit (n % 10) (omega arith)))

value-itoa_loop : (fuel n : ℕ) (s : String) → n < fuel → value 0 (itoa_loop fuel n s) ≡ value n s
unfolding itoa_loop
value-itoa_loop zero n s h = absurd (omega arith)
value-itoa_loop (suc fuel) n s h =
    let last = String.◌∷◌ (digit (n % 10)) s in
    ground (arith, value-digit n 0 s, value-digit n (n / 10) s, value-itoa_loop fuel (n / 10) last)

-- The digits of a number spell it.
pub value-itoa : (n : ℕ) → value 0 (itoa n) ≡ n
unfolding itoa value
value-itoa n = value-itoa_loop (suc n) n String.[] (omega arith)

pub itoa-injective : (m n : ℕ) → itoa m ≡ itoa n → m ≡ n
itoa-injective m n h = sym (value-itoa m) ∙ ap (value 0) h ∙ value-itoa n

module _ (c : Char) (other : (d : ℕ) → d < 10 → code c ≢ b'0' + d) where
  itoa_loop-Lacks : (fuel n : ℕ) (s : String) → Lacks c s → Lacks c (itoa_loop fuel n s)
  unfolding itoa_loop
  itoa_loop-Lacks zero n s h = h
  itoa_loop-Lacks (suc fuel) n s h =
      let s' = String.◌∷◌ (digit (n % 10)) s in
      let fresh : digit (n % 10) ≢ c =
        λ e. other (n % 10) (omega arith) (ap code (sym e) ∙ code-digit (n % 10) (omega arith)) in
      ground (arith, itoa_loop-Lacks fuel (n / 10) s' (fresh, h))

  -- A character that is no digit is not in the digits of a number.
  pub itoa-Lacks : (n : ℕ) → Lacks c (itoa n)
  unfolding itoa
  itoa-Lacks n = itoa_loop-Lacks (suc n) n String.[] tt

itoa_of_port : itoa 30497 ≡ "30497"
unfolding itoa nat_eq
itoa_of_port = refl

itoa_of_zero : itoa 0 ≡ "0"
unfolding itoa nat_eq
itoa_of_zero = refl
