-- ===== src/Prelude/Decimal.antt =====
-- Decimal text of the standard library: `to_string` of a `u64`, and `str::parse::<u64>`.
pub mod RoundTrip
use Prim.Native.Nat.{◌/◌}
use Prim.Native.Char.{Char}
use jsonrpseex.Prelude.Tests.{ltb, leb, ◌==◌, if◌then◌else◌}
use jsonrpseex.Prelude.Lists.{codes}
use Prim.Native.Nat.{ℕ, zero, suc, ◌+◌, ◌-◌, ◌*◌, ◌%◌, ◌^◌}
use Prim.Native.String.{String}
use mathlib.Core.Path.{◌≡◌, refl}
use mathlib.Core.Bool.{◌&&◌}
use mathlib.Core.Option.{Option, none, some}
use mathlib.Core.List.{List, [], ◌∷◌}

abbrev pub u64_mod : ℕ
u64_mod = 2 ^ 64

unfoldable pub digit_char : ℕ → Char
digit_char n =
    if n == 0
    then "0"
    else if n == 1
    then "1"
    else if n == 2
    then "2"
    else if n == 3
    then "3"
    else if n == 4
    then "4"
    else if n == 5
    then "5"
    else if n == 6
    then "6"
    else if n == 7
    then "7"
    else if n == 8
    then "8"
    else "9"

-- The last digit is written first; the fuel is the number of digits at least.
unfoldable pub emit : ℕ → ℕ → String → String
emit zero n out = out
emit (suc fuel) n out =
    let next = String.◌∷◌ (digit_char (n % 10)) out in
    let rest = emit fuel (n / 10) next in if ltb n 10 then next else rest

unfoldable pub show : ℕ → String
unfolding emit
show n = emit (suc n) n String.[]

-- `none` is the error of an empty text, of a character that is no digit, or of an overflow.
unfoldable pub scan : List ℕ → ℕ → Option ℕ
scan [] acc = some acc
scan (c ∷ s) acc =
    let rest = scan s (acc * 10 + (c - b'0')) in
    if leb b'0' c && leb c b'9' && ltb (acc * 10 + (c - b'0')) u64_mod then rest else none

-- One leading `+` is allowed.
unfoldable pub parse_digits : List ℕ → Option ℕ
unfolding scan
parse_digits [] = none
parse_digits (c ∷ s) = scan (c ∷ s) 0

unfoldable pub parse_bytes : List ℕ → Option ℕ
unfolding parse_digits
parse_bytes [] = none
parse_bytes (c ∷ s) = if c == b'+' then parse_digits s else parse_digits (c ∷ s)

unfoldable pub parse : String → Option ℕ
unfolding parse_bytes
parse s = parse_bytes (codes s)

show_example : show 1070 ≡ "1070"
unfolding show digit_char
show_example = refl

parse_example : parse "18446744073709551615" ≡ some 18446744073709551615
unfolding parse
parse_example = refl

parse_overflow : parse "18446744073709551616" ≡ none
unfolding parse
parse_overflow = refl
