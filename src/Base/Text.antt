-- ===== src/Base/Text.antt =====
-- What the program uses of Go's `strings` package, over native texts.
use Prim.Native.Nat.{ℕ, zero, suc, ◌-◌}
use Prim.Native.Char.{Char, nul, code}
use Prim.Native.String.{String, ◌++◌ as ◌<>◌}
use Prim.Native.String.append
use mathlib.Core.Path.{◌≡◌, refl, ap}
use mathlib.Core.Logic.{◌≢◌, inl, inr}
use mathlib.Core.List.{List, [], ◌∷◌}
use native.Mathlib.Omega.{arith}
use mathlib.Core.Bool.{Bool, true, ◌||◌, ◌&&◌}
use text.Mathlib.Text.{starts_with}
use cloud_provider_kind.Base.Equality.{
  ◌==◌, char_eq, string_eq, nat_eq, Bool-cases, eq_of_==, contains, ltb, leb, if◌then◌else◌,
}

-- The character at a position of a text; U+0000 past its end.
abbrev pub nth_char : String → ℕ → Char
nth_char String.[] i = nul
nth_char (String.◌∷◌ c s) zero = c
nth_char (String.◌∷◌ c s) (suc i) = nth_char s i

-- One more character in front of the first part.
abbrev push : Char → List String → List String
push c [] = String.◌∷◌ c String.[] ∷ []
push c (p ∷ ps) = String.◌∷◌ c p ∷ ps

-- `strings.Split(s, sep)` at a separator of one character.
unfoldable pub split : String → Char → List String
split String.[] sep = String.[] ∷ []
split (String.◌∷◌ c s) sep =
    let rest = split s sep in if c == sep then String.[] ∷ rest else push c rest

-- No character of the text is `c`.
abbrev pub Lacks : Char → String → Type 0
Lacks c String.[] = Unit
Lacks c (String.◌∷◌ d s) = (d ≢ c) × Lacks c s

pub split-Lacks : (s : String) (sep : Char) → Lacks sep s → split s sep ≡ s ∷ []
unfolding split
split-Lacks String.[] sep h = refl
split-Lacks (String.◌∷◌ c s) sep (hc, hs) = ground (arith, split-Lacks s sep hs)

-- A part that lacks the separator is cut off at the separator behind it.
pub split-append :
    (p : String) (sep : Char) (rest : String)
    → Lacks sep p
    → split (p <> String.◌∷◌ sep rest) sep ≡ p ∷ split rest sep
unfolding split
split-append String.[] sep rest h = rw append.nil (ground arith)
split-append (String.◌∷◌ c p) sep rest (hc, hp) =
    rw append.cons (ground (arith, split-append p sep rest hp))

-- The lower case of an ASCII letter. No other letter has one of ASCII but `K` (U+212A) and `İ`.
abbrev lower_char : Char → Char
lower_char c =
    let n = code c in
    if ltb n b'A'
    then c
    else if ltb b'Z' n
    then c
    else nth_char "abcdefghijklmnopqrstuvwxyz" (n - b'A')

-- `strings.ToLower`
unfoldable pub to_lower : String → String
to_lower String.[] = String.[]
to_lower (String.◌∷◌ c s) = String.◌∷◌ (lower_char c) (to_lower s)

-- `strings.Contains(s, t)`
unfoldable pub has_substring : String → String → Bool
has_substring String.[] t = t == ""
has_substring (String.◌∷◌ c s) t = starts_with (String.◌∷◌ c s) t || has_substring s t

-- `unicode.IsSpace`
abbrev is_space : Char → Bool
is_space c =
    let n = code c in
    contains
      (9 ∷ 10 ∷ 11 ∷ 12 ∷ 13 ∷ 32 ∷ 0x85 ∷ 0xa0 ∷ 0x1680 ∷ 0x2028 ∷ 0x2029 ∷ 0x202f ∷ 0x205f
        ∷ 0x3000 ∷ [])
      n
    || leb 0x2000 n && leb n 0x200a

trim_left : String → String
trim_left String.[] = String.[]
trim_left (String.◌∷◌ c s) = let rest = trim_left s in if is_space c then rest else String.◌∷◌ c s

-- A text without the spaces at its end.
trim_right : String → String
trim_right String.[] = String.[]
trim_right (String.◌∷◌ c s) =
    let rest = trim_right s in if is_space c && rest == "" then String.[] else String.◌∷◌ c rest

-- `strings.TrimSpace`
unfoldable pub trim_space : String → String
unfolding trim_left trim_right
trim_space s = trim_right (trim_left s)

trim_source_range : trim_space " 192.168.0.0/16  " ≡ "192.168.0.0/16"
unfolding trim_space string_eq nat_eq
trim_source_range = refl

split_path : split "kind/default/web" "/" ≡ "kind" ∷ "default" ∷ "web" ∷ []
unfolding split char_eq
split_path = refl

found_inside : has_substring "failed to get container details: exit 1" "container" ≡ true
unfolding has_substring string_eq
found_inside = refl

-- `s[:n]` for a text of ASCII. Go panics where the text is shorter.
unfoldable pub take : ℕ → String → String
take zero s = String.[]
take (suc n) String.[] = String.[]
take (suc n) (String.◌∷◌ c s) = String.◌∷◌ c (take n s)

-- The parts with the separator between them.
unfoldable pub join : List String → Char → String
join [] sep = ""
join (p ∷ []) sep = p
join (p ∷ q ∷ ps) sep = p <> String.◌∷◌ sep (join (q ∷ ps) sep)

join-push :
    (c : Char) (p : String) (ps : List String) (sep : Char)
    → join (push c (p ∷ ps)) sep ≡ String.◌∷◌ c (join (p ∷ ps) sep)
unfolding join
join-push c p [] sep = refl
join-push c p (q ∷ ps) sep = rw append.cons

pub split-cons :
    (s : String) (sep : Char) → (p : String) × (ps : List String) × (split s sep ≡ p ∷ ps)
unfolding split
split-cons String.[] sep = ("", [], refl)
split-cons (String.◌∷◌ c s) sep =
    let (p, ps, e) = split-cons s sep in
    elim (Bool-cases (c == sep)) [
      | inl h ↦ ("", split s sep, rw h)
      | inr h ↦ (String.◌∷◌ c p, ps, rw (h, e))
    ]

-- The parts of a text, with the separator between them, are the text.
pub join-split : (s : String) (sep : Char) → join (split s sep) sep ≡ s
unfolding split join
join-split String.[] sep = refl
join-split (String.◌∷◌ c s) sep =
    let (p, ps, e) = split-cons s sep in
    let ih : join (p ∷ ps) sep ≡ s = rw (← e) (join-split s sep) in
    elim (Bool-cases (c == sep)) [
      | inl h ↦ rw (h, e, append.nil, ih, eq_of_== c sep h)
      | inr h ↦ rw (h, e, join-push c p ps sep, ih)
    ]

pub singleton-append : (c : Char) (t : String) → String.◌∷◌ c String.[] <> t ≡ String.◌∷◌ c t
singleton-append c t = rw (append.cons, append.nil)

-- `Lacks`, as a test that computes at a literal.
abbrev pub lacks : Char → String → Bool
lacks c String.[] = true
lacks c (String.◌∷◌ d s) = (ltb (code d) (code c) || ltb (code c) (code d)) && lacks c s

pub Lacks-of_lacks : (c : Char) (s : String) → lacks c s ≡ true → Lacks c s
Lacks-of_lacks c String.[] h = tt
Lacks-of_lacks c (String.◌∷◌ d s) h =
    let other : d ≢ c = λ e. let same : code d ≡ code c = ap code e in ground arith in
    (other, Lacks-of_lacks c s (ground arith))

-- `net.JoinHostPort(host, port)`
unfoldable pub join_host_port : String → String → String
unfolding has_substring
join_host_port host port =
    if has_substring host ":" then "[" <> (host <> ("]:" <> port)) else host <> (":" <> port)
