-- ===== src/Base/Sha256.antt =====
-- `crypto/sha256`: the digest of a text's bytes.
use Prim.Native.Nat.{ℕ, zero, suc, ◌+◌, ◌-◌, ◌*◌, ◌/◌, ◌%◌, ◌^◌, bit_and, bit_xor}
use Prim.Native.Char.{code}
use Prim.Native.String.{String}
use mathlib.Core.Path.{◌≡◌, refl}
use mathlib.Core.List.{List, [], ◌∷◌, ◌++◌, reverse}
use cloud_provider_kind.Base.Lists.{length}
use cloud_provider_kind.Base.Equality.{ltb, if◌then◌else◌}

-- The UTF-8 of a code point.
encode_rune : ℕ → List ℕ
encode_rune n =
    if ltb n 0x80
    then n ∷ []
    else if ltb n 0x800
    then (0xc0 + n / 64) ∷ (0x80 + n % 64) ∷ []
    else if ltb n 0x10000
    then (0xe0 + n / 4096) ∷ (0x80 + n / 64 % 64) ∷ (0x80 + n % 64) ∷ []
    else (0xf0 + n / 262144) ∷ (0x80 + n / 4096 % 64) ∷ (0x80 + n / 64 % 64) ∷ (0x80 + n % 64) ∷ []

-- `[]byte(s)`
unfoldable pub bytes : String → List ℕ
unfolding encode_rune
bytes String.[] = []
bytes (String.◌∷◌ c s) = encode_rune (code c) ++ bytes s

abbrev word : ℕ
word = 2 ^ 32

abbrev rotr : ℕ → ℕ → ℕ
rotr x n = x / 2 ^ n + (x % 2 ^ n) * 2 ^ (32 - n)

abbrev xor3 : ℕ → ℕ → ℕ → ℕ
xor3 a b c = bit_xor (bit_xor a b) c

round_keys : List ℕ
round_keys =
    0x428a2f98 ∷ 0x71374491 ∷ 0xb5c0fbcf ∷ 0xe9b5dba5 ∷ 0x3956c25b ∷ 0x59f111f1 ∷ 0x923f82a4
    ∷ 0xab1c5ed5 ∷ 0xd807aa98 ∷ 0x12835b01 ∷ 0x243185be ∷ 0x550c7dc3 ∷ 0x72be5d74 ∷ 0x80deb1fe
    ∷ 0x9bdc06a7 ∷ 0xc19bf174 ∷ 0xe49b69c1 ∷ 0xefbe4786 ∷ 0x0fc19dc6 ∷ 0x240ca1cc ∷ 0x2de92c6f
    ∷ 0x4a7484aa ∷ 0x5cb0a9dc ∷ 0x76f988da ∷ 0x983e5152 ∷ 0xa831c66d ∷ 0xb00327c8 ∷ 0xbf597fc7
    ∷ 0xc6e00bf3 ∷ 0xd5a79147 ∷ 0x06ca6351 ∷ 0x14292967 ∷ 0x27b70a85 ∷ 0x2e1b2138 ∷ 0x4d2c6dfc
    ∷ 0x53380d13 ∷ 0x650a7354 ∷ 0x766a0abb ∷ 0x81c2c92e ∷ 0x92722c85 ∷ 0xa2bfe8a1 ∷ 0xa81a664b
    ∷ 0xc24b8b70 ∷ 0xc76c51a3 ∷ 0xd192e819 ∷ 0xd6990624 ∷ 0xf40e3585 ∷ 0x106aa070 ∷ 0x19a4c116
    ∷ 0x1e376c08 ∷ 0x2748774c ∷ 0x34b0bcb5 ∷ 0x391c0cb3 ∷ 0x4ed8aa4a ∷ 0x5b9cca4f ∷ 0x682e6ff3
    ∷ 0x748f82ee ∷ 0x78a5636f ∷ 0x84c87814 ∷ 0x8cc70208 ∷ 0x90befffa ∷ 0xa4506ceb ∷ 0xbef9a3f7
    ∷ 0xc67178f2 ∷ []

-- The eight words of the state.
pub record Hash : Type 0 where
  pub a : ℕ
  pub b : ℕ
  pub c : ℕ
  pub d : ℕ
  pub e : ℕ
  pub f : ℕ
  pub g : ℕ
  pub h : ℕ

abbrev initial : Hash
initial = record {
  a = 0x6a09e667;
  b = 0xbb67ae85;
  c = 0x3c6ef372;
  d = 0xa54ff53a;
  e = 0x510e527f;
  f = 0x9b05688c;
  g = 0x1f83d9ab;
  h = 0x5be0cd19;
}

-- One round at the schedule's word `w` and the key `k`.
round : Hash → ℕ → ℕ → Hash
round s w k =
    let s1 = xor3 (rotr s.e 6) (rotr s.e 11) (rotr s.e 25) in
    let choice = bit_xor (bit_and s.e s.f) (bit_and (word - 1 - s.e) s.g) in
    let t1 = (s.h + s1 + choice + k + w) % word in
    let s0 = xor3 (rotr s.a 2) (rotr s.a 13) (rotr s.a 22) in
    let majority = xor3 (bit_and s.a s.b) (bit_and s.a s.c) (bit_and s.b s.c) in
    let t2 = (s0 + majority) % word in
    record {
      a = (t1 + t2) % word;
      b = s.a;
      c = s.b;
      d = s.c;
      e = (s.d + t1) % word;
      f = s.e;
      g = s.f;
      h = s.g;
    }

rounds : Hash → List ℕ → List ℕ → Hash
unfolding round
rounds s (w ∷ ws) (k ∷ ks) = rounds (round s w k) ws ks
rounds s _ _ = s

get_or : List ℕ → ℕ → ℕ
get_or [] i = 0
get_or (x ∷ xs) zero = x
get_or (x ∷ xs) (suc i) = get_or xs i

-- `n` more words of the schedule, the newest in front.
schedule : ℕ → List ℕ → List ℕ
unfolding get_or
schedule zero ws = ws
schedule (suc n) ws =
    let w2 = get_or ws 1 in
    let w15 = get_or ws 14 in
    let s0 = xor3 (rotr w15 7) (rotr w15 18) (w15 / 2 ^ 3) in
    let s1 = xor3 (rotr w2 17) (rotr w2 19) (w2 / 2 ^ 10) in
    schedule n (((s1 + get_or ws 6 + s0 + get_or ws 15) % word) ∷ ws)

-- The words of a block, the last one in front.
block_words : List ℕ → List ℕ → List ℕ
block_words (p ∷ q ∷ r ∷ s ∷ bs) ws = block_words bs ((((p * 256 + q) * 256 + r) * 256 + s) ∷ ws)
block_words _ ws = ws

compress : Hash → List ℕ → Hash
unfolding rounds schedule block_words round_keys
compress s block =
    let t = rounds s (reverse (schedule 48 (block_words block []))) round_keys in
    record {
      a = (s.a + t.a) % word;
      b = (s.b + t.b) % word;
      c = (s.c + t.c) % word;
      d = (s.d + t.d) % word;
      e = (s.e + t.e) % word;
      f = (s.f + t.f) % word;
      g = (s.g + t.g) % word;
      h = (s.h + t.h) % word;
    }

zeros : ℕ → List ℕ
zeros zero = []
zeros (suc n) = 0 ∷ zeros n

-- The message, a one bit, zeros up to a multiple of 64 bytes less 8, and the length in bits.
pad : List ℕ → List ℕ
unfolding zeros
pad msg =
    let n = length msg in
    let bits = n * 8 in
    msg
    ++ 0x80
      ∷ (zeros ((64 - (n + 9) % 64) % 64)
          ++ (bits / 2 ^ 56 % 256)
            ∷ (bits / 2 ^ 48 % 256)
            ∷ (bits / 2 ^ 40 % 256)
            ∷ (bits / 2 ^ 32 % 256)
            ∷ (bits / 2 ^ 24 % 256)
            ∷ (bits / 2 ^ 16 % 256)
            ∷ (bits / 2 ^ 8 % 256)
            ∷ (bits % 256)
            ∷ [])

-- The blocks of 64 bytes: `block` collects the current one in reverse.
absorb : List ℕ → ℕ → List ℕ → Hash → Hash
unfolding compress
absorb [] n block s = compress s (reverse block)
absorb (x ∷ xs) zero block s = absorb xs 63 (x ∷ []) (compress s (reverse block))
absorb (x ∷ xs) (suc n) block s = absorb xs n (x ∷ block) s

word_bytes : ℕ → List ℕ
word_bytes w = (w / 2 ^ 24 % 256) ∷ (w / 2 ^ 16 % 256) ∷ (w / 2 ^ 8 % 256) ∷ (w % 256) ∷ []

digest : Hash → List ℕ
unfolding word_bytes
digest s =
    word_bytes s.a
    ++ word_bytes s.b
    ++ word_bytes s.c
    ++ word_bytes s.d
    ++ word_bytes s.e
    ++ word_bytes s.f
    ++ word_bytes s.g
    ++ word_bytes s.h

-- `sha256.Sum256([]byte(s))`
unfoldable pub sha256 : String → List ℕ
unfolding digest absorb pad bytes
sha256 s = digest (absorb (pad (bytes s)) 64 [] initial)

pub length-sha256 : (s : String) → length (sha256 s) ≡ 32
unfolding sha256
length-sha256 s = refl

sha256_of_abc :
    sha256 "abc"
    ≡ 0xba ∷ 0x78 ∷ 0x16 ∷ 0xbf ∷ 0x8f ∷ 0x01 ∷ 0xcf ∷ 0xea ∷ 0x41 ∷ 0x41 ∷ 0x40 ∷ 0xde ∷ 0x5d
      ∷ 0xae ∷ 0x22 ∷ 0x23 ∷ 0xb0 ∷ 0x03 ∷ 0x61 ∷ 0xa3 ∷ 0x96 ∷ 0x17 ∷ 0x7a ∷ 0x9c ∷ 0xb4 ∷ 0x10
      ∷ 0xff ∷ 0x61 ∷ 0xf2 ∷ 0x00 ∷ 0x15 ∷ 0xad ∷ []
unfolding sha256
sha256_of_abc = refl
