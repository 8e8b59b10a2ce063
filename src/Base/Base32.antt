-- ===== src/Base/Base32.antt =====
-- The standard encoding of `encoding/base32`, with padding.
use Prim.Native.Nat.{ℕ, ◌+◌, ◌*◌, ◌/◌, ◌%◌}
use Prim.Native.Char.{Char}
use Prim.Native.String.{String}
use mathlib.Core.List.{List, [], ◌∷◌}
use cloud_provider_kind.Base.Text.{nth_char}

abbrev pub alphabet : String
alphabet = "ABCDEFGHIJKLMNOPQRSTUVWXYZ234567"

-- The character of five bits.
abbrev pub symbol : ℕ → Char
symbol v = nth_char alphabet v

infixr 67 ◌∷ₛ◌
abbrev ◌∷ₛ◌ : ℕ → String → String
v ∷ₛ s = String.◌∷◌ (symbol v) s

-- `base32.StdEncoding.EncodeToString(b)`
unfoldable pub encode_to_string : List ℕ → String
encode_to_string [] = ""
encode_to_string (a ∷ []) = (a / 8) ∷ₛ (a % 8 * 4) ∷ₛ "======"
encode_to_string (a ∷ b ∷ []) =
    (a / 8) ∷ₛ (a % 8 * 4 + b / 64) ∷ₛ (b / 2 % 32) ∷ₛ (b % 2 * 16) ∷ₛ "===="
encode_to_string (a ∷ b ∷ c ∷ []) =
    (a / 8)
    ∷ₛ (a % 8 * 4 + b / 64)
    ∷ₛ (b / 2 % 32)
    ∷ₛ (b % 2 * 16 + c / 16)
    ∷ₛ (c % 16 * 2)
    ∷ₛ "==="
encode_to_string (a ∷ b ∷ c ∷ d ∷ []) =
    (a / 8)
    ∷ₛ (a % 8 * 4 + b / 64)
    ∷ₛ (b / 2 % 32)
    ∷ₛ (b % 2 * 16 + c / 16)
    ∷ₛ (c % 16 * 2 + d / 128)
    ∷ₛ (d / 4 % 32)
    ∷ₛ (d % 4 * 8)
    ∷ₛ "="
encode_to_string (a ∷ b ∷ c ∷ d ∷ e ∷ rest) =
    (a / 8)
    ∷ₛ (a % 8 * 4 + b / 64)
    ∷ₛ (b / 2 % 32)
    ∷ₛ (b % 2 * 16 + c / 16)
    ∷ₛ (c % 16 * 2 + d / 128)
    ∷ₛ (d / 4 % 32)
    ∷ₛ (d % 4 * 8 + e / 32)
    ∷ₛ (e % 32)
    ∷ₛ encode_to_string rest
