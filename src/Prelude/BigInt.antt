-- ===== src/Prelude/BigInt.antt =====
-- `BigInt(text)`: white space is trimmed, the empty text is 0, decimal digits may have a sign, and the
-- prefixes 0x, 0o and 0b are read; `none` is the SyntaxError.
use Prim.Native.Nat.{ℕ, zero, suc, ◌+◌, ◌-◌, ◌*◌}
use Prim.Native.Char.{code}
use Prim.Native.String.{String, [], ◌∷◌}
use mathlib.Core.Bool.{◌&&◌, ◌||◌}
use mathlib.Core.Option
use mathlib.Core.Option.{Option, none, some}
use carbonchain.Prelude.Tests.{if◌then◌else◌, ◌===◌, ◌==◌, ltb, leb}
use carbonchain.Prelude.Int.{ℤ, pos, negsuc}
use carbonchain.Prelude.Text.{trim}

-- The value of a digit, 16 for any other character.
digit_value : ℕ → ℕ
digit_value c =
    if leb b'0' c && leb c b'9'
    then c - b'0'
    else if leb b'a' c && leb c b'f'
    then c - b'a' + 10
    else if leb b'A' c && leb c b'F'
    then c - b'A' + 10
    else 16

digits_from : ℕ → ℕ → String → Option ℕ
unfolding digit_value
digits_from base acc [] = some acc
digits_from base acc (c ∷ s) =
    let rest = digits_from base (acc * base + digit_value (code c)) s in
    if ltb (digit_value (code c)) base then rest else none

number_in : ℕ → String → Option ℕ
unfolding digits_from
number_in base s = if s === "" then none else digits_from base 0 s

negate : ℕ → ℤ
negate zero = pos 0
negate (suc n) = negsuc n

-- What follows a leading zero.
after_zero : String → Option ℕ
unfolding number_in
after_zero [] = some 0
after_zero (c ∷ s) =
    if code c == b'x' || code c == b'X'
    then number_in 16 s
    else if code c == b'o' || code c == b'O'
    then number_in 8 s
    else if code c == b'b' || code c == b'B'
    then number_in 2 s
    else number_in 10 (c ∷ s)

literal : String → Option ℤ
unfolding number_in negate after_zero
literal [] = some (pos 0)
literal (c ∷ s) =
    if code c == b'-'
    then Option.map negate (number_in 10 s)
    else if code c == b'+'
    then Option.map pos (number_in 10 s)
    else if code c == b'0'
    then Option.map pos (after_zero s)
    else Option.map pos (number_in 10 (c ∷ s))

unfoldable pub big_int : String → Option ℤ
unfolding trim literal
big_int s = literal (trim s)
