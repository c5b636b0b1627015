-- ===== src/Base/Number.antt =====
-- Go's `strconv`: `ParseInt` and `Atoi` in base 10, and `FormatInt`.
use Prim.Native.Nat.{ℕ, zero, suc, ◌+◌, ◌-◌, ◌*◌, ◌/◌, ◌%◌, ◌^◌}
use Prim.Native.Char.{code}
use Prim.Native.String.{String}
use mathlib.Core.Bool.{Bool, true, false, ◌&&◌}
use mathlib.Core.Option.{Option, none, some}
use mathlib.Core.Path.{◌≡◌}
use native.Mathlib.Omega.{arith}
use spinnaker_operator.Base.Tests.{leb, ltb, ◌==◌, if◌then◌else◌}
use spinnaker_operator.Base.Text.{append}

-- `negsuc n` is -(n + 1).
pub data ℤ : Type 0 where
  pos : ℕ → ℤ
  negsuc : ℕ → ℤ

pub data NumError : Type 0 where
  syntax range : NumError

pub data Scan : Type 0 where
  bad : NumError → Scan
  digits : ℕ → Scan

-- The loop of `ParseUint`: digits are read while the value is at most `limit`.
scan : ℕ → ℕ → String → Scan
scan limit n String.[] = digits n
scan limit n (String.◌∷◌ c s) =
    let d = code c - b'0' in
    let more = scan limit (n * 10 + d) s in
    if leb b'0' (code c) && leb (code c) b'9'
    then if ltb limit (n * 10 + d) then bad range else more
    else bad syntax

unsigned : ℕ → String → Scan
unsigned limit String.[] = bad syntax
unsigned limit (String.◌∷◌ c s) = scan limit 0 (String.◌∷◌ c s)

-- The last step of `ParseInt`: out of range, the value is the bound that is nearest.
signed : ℕ → Bool → Scan → ℤ × Option NumError
signed bits neg (bad syntax) = (pos 0, some syntax)
signed bits true (bad range) = (negsuc (2 ^ (bits - 1) - 1), some range)
signed bits false (bad range) = (pos (2 ^ (bits - 1) - 1), some range)
signed bits true (digits zero) = (pos 0, none)
signed bits true (digits (suc n)) =
    if leb (2 ^ (bits - 1)) n then (negsuc (2 ^ (bits - 1) - 1), some range) else (negsuc n, none)
signed bits false (digits n) =
    if leb (2 ^ (bits - 1)) n then (pos (2 ^ (bits - 1) - 1), some range) else (pos n, none)

-- `strconv.ParseInt(s, 10, bits)`: the value that it returns beside an error counts too.
unfoldable pub parse_int : ℕ → String → ℤ × Option NumError
unfolding scan unsigned signed
parse_int bits String.[] = (pos 0, some syntax)
parse_int bits (String.◌∷◌ c s) =
    if code c == b'-'
    then signed bits true (unsigned (2 ^ bits - 1) s)
    else if code c == b'+'
    then signed bits false (unsigned (2 ^ bits - 1) s)
    else signed bits false (scan (2 ^ bits - 1) 0 (String.◌∷◌ c s))

digit : ℕ → String
digit d =
    if d == 0
    then "0"
    else if d == 1
    then "1"
    else if d == 2
    then "2"
    else if d == 3
    then "3"
    else if d == 4
    then "4"
    else if d == 5
    then "5"
    else if d == 6
    then "6"
    else if d == 7
    then "7"
    else if d == 8
    then "8"
    else "9"

-- One digit for each round; `suc n` rounds are enough for `n`.
format_fuel : ℕ → ℕ → String
format_fuel zero n = digit n
format_fuel (suc f) n = elim (ltb n 10) [
  | true ↦ digit n
  | false ↦ append (format_fuel f (n / 10)) (digit (n % 10))
]

-- `strconv.FormatInt(n, 10)`
unfoldable pub format_int : ℤ → String
unfolding digit format_fuel append
format_int (pos n) = format_fuel (suc n) n
format_int (negsuc n) = append "-" (format_fuel (suc (suc n)) (suc n))

infix 50 ◌=ℤ◌
-- `==` on integers.
unfoldable pub ◌=ℤ◌ : ℤ → ℤ → Bool
pos a =ℤ pos b = a == b
negsuc a =ℤ negsuc b = a == b
_ =ℤ _ = false

pub =ℤ→≡ : (a b : ℤ) → (a =ℤ b) ≡ true → a ≡ b
unfolding ◌=ℤ◌
=ℤ→≡ (pos a) (pos b) h = ground arith
=ℤ→≡ (negsuc a) (negsuc b) h = ground arith
=ℤ→≡ (pos a) (negsuc b) h = ground arith
=ℤ→≡ (negsuc a) (pos b) h = ground arith

pub =ℤ_refl : (a : ℤ) → (a =ℤ a) ≡ true
unfolding ◌=ℤ◌
=ℤ_refl (pos a) = ground arith
=ℤ_refl (negsuc a) = ground arith

pub =ℤ_swap : (a b : ℤ) → (a =ℤ b) ≡ (b =ℤ a)
unfolding ◌=ℤ◌
=ℤ_swap (pos a) (pos b) = ground arith
=ℤ_swap (negsuc a) (negsuc b) = ground arith
=ℤ_swap (pos a) (negsuc b) = ground arith
=ℤ_swap (negsuc a) (pos b) = ground arith
