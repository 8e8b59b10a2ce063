-- ===== src/LoadBalancer/Names/Shape.antt =====
-- The container's name fits a host name: it has 48 characters, of a prefix and of base 32.
use Prim.Native.Char.{Char}
use Prim.Native.Nat.{◌<◌}
use Prim.Native.String.{count}
use Prim.Native.String.count
use text.Mathlib.TextLemmas.{length-append}
use cloud_provider_kind.Base.{
  String, ◌<>◌, ℕ, zero, suc, ◌≡◌, refl, arith, ◌+◌, ◌≤◌, ◌*◌, ◌/◌, ◌%◌, List, [], ◌∷◌, length, All,
}
use cloud_provider_kind.Base.Base32.{symbol, encode_to_string}
use cloud_provider_kind.Base.Sha256.{sha256, length-sha256}
use cloud_provider_kind.Base.Text.{take}
use cloud_provider_kind.Api.{Service}
use cloud_provider_kind.LoadBalancer.Names.{
  load_balancer_name, load_balancer_simple_name, hash_name,
}

abbrev pub AllChars : (Char → Type 0) → String → Type 0
AllChars P String.[] = Unit
AllChars P (String.◌∷◌ c s) = P c × AllChars P s

-- One of the 32 characters of the encoding.
abbrev pub IsSymbol : Char → Type 0
IsSymbol c = (v : ℕ) × (v < 32) × (c ≡ symbol v)

abbrev IsByte : ℕ → Type 0
IsByte n = n < 256

-- Eight characters for each of `n` groups.
abbrev eights : ℕ → ℕ
eights zero = zero
eights (suc n) = suc (suc (suc (suc (suc (suc (suc (suc (eights n))))))))

-- Five bytes give eight characters of the encoding, so `5 n` bytes give `8 n` with no padding.
take-IsSymbol :
    (n : ℕ) (bytes : List ℕ)
    → All IsByte bytes
    → 5 * n ≤ length bytes
    → AllChars IsSymbol (take (eights n) (encode_to_string bytes))
unfolding take encode_to_string
take-IsSymbol zero bytes h len = tt
take-IsSymbol (suc n) (a ∷ b ∷ c ∷ d ∷ e ∷ rest) (ha, (hb, (hc, (hd, (he, h))))) len =
    let s1 : IsSymbol (symbol (a / 8)) = (a / 8, omega arith, refl) in
    let s2 : IsSymbol (symbol (a % 8 * 4 + b / 64)) = (a % 8 * 4 + b / 64, omega arith, refl) in
    let s3 : IsSymbol (symbol (b / 2 % 32)) = (b / 2 % 32, omega arith, refl) in
    let s4 : IsSymbol (symbol (b % 2 * 16 + c / 16)) = (b % 2 * 16 + c / 16, omega arith, refl) in
    let s5 : IsSymbol (symbol (c % 16 * 2 + d / 128)) = (c % 16 * 2 + d / 128, omega arith, refl) in
    let s6 : IsSymbol (symbol (d / 4 % 32)) = (d / 4 % 32, omega arith, refl) in
    let s7 : IsSymbol (symbol (d % 4 * 8 + e / 32)) = (d % 4 * 8 + e / 32, omega arith, refl) in
    let s8 : IsSymbol (symbol (e % 32)) = (e % 32, omega arith, refl) in
    (s1, (s2, (s3, (s4, (s5, (s6, (s7, (s8, take-IsSymbol n rest h (omega arith)))))))))
take-IsSymbol (suc n) (a ∷ b ∷ c ∷ d ∷ []) h len = absurd (omega arith)
take-IsSymbol (suc n) (a ∷ b ∷ c ∷ []) h len = absurd (omega arith)
take-IsSymbol (suc n) (a ∷ b ∷ []) h len = absurd (omega arith)
take-IsSymbol (suc n) (a ∷ []) h len = absurd (omega arith)
take-IsSymbol (suc n) [] h len = absurd (omega arith)

sha256-IsByte : (s : String) → All IsByte (sha256 s)
unfolding sha256
sha256-IsByte s = omega arith

hash_name-IsSymbol : (s : String) → AllChars IsSymbol (hash_name s)
unfolding hash_name
hash_name-IsSymbol s = take-IsSymbol 5 (sha256 s) (sha256-IsByte s) (omega (arith, length-sha256 s))

count-hash_name : (s : String) → count (hash_name s) ≡ 40
unfolding hash_name
count-hash_name s = simp count.cons

-- A container's name is the prefix, a dash and 40 characters of base 32 without padding: 48
-- characters in all.
pub load_balancer_name_shape :
    (cluster_name : String) (service : Service)
    → (hash : String) × (load_balancer_name cluster_name service ≡ "kindccm-" <> hash)
      × AllChars IsSymbol hash
      × (count (load_balancer_name cluster_name service) ≡ 48)
unfolding load_balancer_name
load_balancer_name_shape cluster_name service =
    let simple_name = load_balancer_simple_name cluster_name service in
    (
      hash_name simple_name,
      refl,
      hash_name-IsSymbol simple_name,
      rw (length-append, length-append, count-hash_name simple_name),
    )
