-- ===== src/Base/Text.antt =====
-- The functions of Go's `strings` that the operator calls with a one-byte separator.
use Prim.Native.Nat.{ℕ, ◌+◌}
use Prim.Native.Char.{Char, code}
use Prim.Native.String.{String}
use mathlib.Core.Path.{◌≡◌, refl}
use mathlib.Core.Bool.{Bool, true, false, ◌&&◌, ◌||◌, not}
use mathlib.Core.List.{List, [], ◌∷◌}
use native.Mathlib.Omega.{arith}
use spinnaker_operator.Base.Tests.{◌==◌, leb, if◌then◌else◌}

abbrev pub push_char : Char → List String → List String
push_char c [] = String.◌∷◌ c String.[] ∷ []
push_char c (s ∷ ss) = String.◌∷◌ c s ∷ ss

-- `strings.Split(s, sep)`: at least one part, also of the empty text.
unfoldable pub split : ℕ → String → List String
split sep String.[] = String.[] ∷ []
split sep (String.◌∷◌ c s) =
    let rest = split sep s in if code c == sep then String.[] ∷ rest else push_char c rest

unfoldable pub is_empty : String → Bool
is_empty String.[] = true
is_empty (String.◌∷◌ c s) = false

-- The parts, put together with the separator between them.
unfoldable pub append : String → String → String
append String.[] t = t
append (String.◌∷◌ c s) t = String.◌∷◌ c (append s t)

-- No character of the text is `c`.
unfoldable pub lacks : ℕ → String → Bool
lacks sep String.[] = true
lacks sep (String.◌∷◌ c s) = not (code c == sep) && lacks sep s

pub split_of_lacks : (sep : ℕ) (s : String) → lacks sep s ≡ true → split sep s ≡ s ∷ []
unfolding split lacks
split_of_lacks sep String.[] h = refl
split_of_lacks sep (String.◌∷◌ c s) h = ground (arith, split_of_lacks sep s)

-- A part without the separator, then the separator: the first part of the split.
pub split-append :
    (sep : ℕ) (s : String) (c : Char) (t : String)
    → lacks sep s ≡ true
    → (code c == sep) ≡ true
    → split sep (append s (String.◌∷◌ c t)) ≡ s ∷ split sep t
unfolding split lacks append
split-append sep String.[] c t h e = ground arith
split-append sep (String.◌∷◌ d s) c t h e = ground (arith, split-append sep s c t)

-- The lower case of a character, as far as it can be ASCII: U+0130 and U+212A are `i` and `k` there.
abbrev lower : ℕ → ℕ
lower c =
    if leb 65 c && leb c 90
    then c + 32
    else if c == 0x130
    then 105
    else if c == 0x212a
    then 107
    else c

-- `strings.ToLower(s) == t`, for a text `t` of ASCII characters.
unfoldable pub lower_is : String → String → Bool
lower_is String.[] String.[] = true
lower_is String.[] (String.◌∷◌ d t) = false
lower_is (String.◌∷◌ c s) String.[] = false
lower_is (String.◌∷◌ c s) (String.◌∷◌ d t) = lower (code c) == code d && lower_is s t

-- Some place in the second text where the first one begins.
unfoldable pub has_prefix : String → String → Bool
has_prefix String.[] s = true
has_prefix (String.◌∷◌ c p) String.[] = false
has_prefix (String.◌∷◌ c p) (String.◌∷◌ d s) = code c == code d && has_prefix p s

-- `strings.Contains(s, p)`
unfoldable pub contains : String → String → Bool
unfolding has_prefix
contains p String.[] = has_prefix p String.[]
contains p (String.◌∷◌ d s) = has_prefix p (String.◌∷◌ d s) || contains p s

pub lacks-append : (c : ℕ) (s t : String) → lacks c (append s t) ≡ (lacks c s && lacks c t)
unfolding lacks append
lacks-append c String.[] t = refl
lacks-append c (String.◌∷◌ d s) t = ground (arith, lacks-append c s t)

pub append-append : (s t u : String) → append (append s t) u ≡ append s (append t u)
unfolding append
append-append String.[] t u = refl
append-append (String.◌∷◌ c s) t u = ground (arith, append-append s t u)
