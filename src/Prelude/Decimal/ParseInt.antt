-- ===== src/Prelude/Decimal/ParseInt.antt =====
-- `parseInt(text, 10)`: white space is skipped, a sign may follow, and the digits up to the first other
-- character are read; `none` is `NaN`. Numbers are exact, as they are below 2^53.
use Prim.Native.Nat.{ℕ, zero, suc, ◌+◌, ◌-◌, ◌*◌, ◌/◌, ◌%◌, ◌<◌}
use Prim.Native.Char.{Char, code}
use Prim.Native.String.{String, [], ◌∷◌, ◌++◌}
use mathlib.Core.Path.{◌≡◌, refl, ap, ◌∙◌}
use mathlib.Core.Logic.{◌⊎◌, inl, inr}
use mathlib.Core.Bool.{Bool, true, false, ◌&&◌}
use mathlib.Core.Option
use mathlib.Core.Option.{Option, none, some}
use native.Mathlib.Omega.{arith}
use text.Mathlib.TextLemmas.{nil-append, cons-append}
use carbonchain.Prelude.Tests.{if◌then◌else◌, ltb, leb, ◌==◌, Bool-cases, and-eq-true, and_true}
use carbonchain.Prelude.Int.{ℤ, pos, negsuc}
use carbonchain.Prelude.Text.{is_space, trim_start, all_units}
use carbonchain.Prelude.Decimal.{digit, digits, decimal}

abbrev is_digit : ℕ → Bool
is_digit c = leb b'0' c && leb c b'9'

-- The digits up to the first other character, after the number read so far.
unfoldable pub digits_prefix : ℕ → String → ℕ
digits_prefix acc [] = acc
digits_prefix acc (c ∷ s) =
    let rest = digits_prefix (acc * 10 + (code c - b'0')) s in
    if is_digit (code c) then rest else acc

unfoldable pub unsigned : String → Option ℕ
unsigned [] = none
unsigned (c ∷ s) = if is_digit (code c) then some (digits_prefix (code c - b'0') s) else none

abbrev negative : ℕ → ℤ
negative zero = pos 0
negative (suc n) = negsuc n

unfoldable pub with_sign : String → Option ℤ
unfolding unsigned
with_sign [] = none
with_sign (c ∷ s) =
    if code c == b'-'
    then Option.map negative (unsigned s)
    else if code c == b'+'
    then Option.map pos (unsigned s)
    else Option.map pos (unsigned (c ∷ s))

unfoldable pub parse_int : String → Option ℤ
unfolding trim_start with_sign
parse_int s = with_sign (trim_start s)

-- What follows digits goes on from their number.
digits_prefix-append :
    (acc : ℕ) (s t : String)
    → all_units is_digit s ≡ true
    → digits_prefix acc (s ++ t) ≡ digits_prefix (digits_prefix acc s) t
unfolding digits_prefix
digits_prefix-append acc [] t h = rw (nil-append t) refl
digits_prefix-append acc (c ∷ s) t h =
    let (d, rest) = and-eq-true (is_digit (code c)) (all_units is_digit s) h in
    rw (cons-append c s t, d) (digits_prefix-append (acc * 10 + (code c - b'0')) s t rest)

digit-digits_prefix : (acc d : ℕ) → d < 10 → digits_prefix acc (digit d) ≡ acc * 10 + d
unfolding digits_prefix digit
digit-digits_prefix acc zero h = omega arith
digit-digits_prefix acc (suc zero) h = omega arith
digit-digits_prefix acc (suc (suc zero)) h = omega arith
digit-digits_prefix acc (suc (suc (suc zero))) h = omega arith
digit-digits_prefix acc (suc (suc (suc (suc zero)))) h = omega arith
digit-digits_prefix acc (suc (suc (suc (suc (suc zero))))) h = omega arith
digit-digits_prefix acc (suc (suc (suc (suc (suc (suc zero)))))) h = omega arith
digit-digits_prefix acc (suc (suc (suc (suc (suc (suc (suc zero))))))) h = omega arith
digit-digits_prefix acc (suc (suc (suc (suc (suc (suc (suc (suc zero)))))))) h = omega arith
digit-digits_prefix acc (suc (suc (suc (suc (suc (suc (suc (suc (suc zero))))))))) h = omega arith
digit-digits_prefix acc (suc (suc (suc (suc (suc (suc (suc (suc (suc (suc d)))))))))) h =
    absurd (omega arith)

all_units-append :
    (s t : String)
    → all_units is_digit s ≡ true
    → all_units is_digit t ≡ true
    → all_units is_digit (s ++ t) ≡ true
all_units-append [] t h k = rw (nil-append t) k
all_units-append (c ∷ s) t h k =
    let (d, rest) = and-eq-true _ _ h in
    rw (cons-append c s t) (and_true d (all_units-append s t rest k))

digit-all_units : (d : ℕ) → d < 10 → all_units is_digit (digit d) ≡ true
unfolding digit
digit-all_units zero h = refl
digit-all_units (suc zero) h = refl
digit-all_units (suc (suc zero)) h = refl
digit-all_units (suc (suc (suc zero))) h = refl
digit-all_units (suc (suc (suc (suc zero)))) h = refl
digit-all_units (suc (suc (suc (suc (suc zero))))) h = refl
digit-all_units (suc (suc (suc (suc (suc (suc zero)))))) h = refl
digit-all_units (suc (suc (suc (suc (suc (suc (suc zero))))))) h = refl
digit-all_units (suc (suc (suc (suc (suc (suc (suc (suc zero)))))))) h = refl
digit-all_units (suc (suc (suc (suc (suc (suc (suc (suc (suc zero))))))))) h = refl
digit-all_units (suc (suc (suc (suc (suc (suc (suc (suc (suc (suc d)))))))))) h =
    absurd (omega arith)

digits-all_units : (f n : ℕ) → all_units is_digit (digits f n) ≡ true
unfolding digits
digits-all_units zero n = refl
digits-all_units (suc f) n = elim (Bool-cases (ltb n 10)) [
  | inl e ↦ rw e (digit-all_units n (ground arith))
  | inr e ↦ rw e (
      all_units-append (digits f (n / 10)) (digit (n % 10)) (digits-all_units f (n / 10))
        (digit-all_units (n % 10) (omega arith)))
]

digits-digits_prefix : (f n : ℕ) → n < f → digits_prefix 0 (digits f n) ≡ n
unfolding digits
digits-digits_prefix zero n h = elim h [ ]
digits-digits_prefix (suc f) n h = elim (Bool-cases (ltb n 10)) [
  | inl e ↦ rw e (digit-digits_prefix 0 n (ground arith) ∙ omega arith)
  | inr e ↦ rw e (
      digits_prefix-append 0 (digits f (n / 10)) (digit (n % 10)) (digits-all_units f (n / 10))
      ∙ digit-digits_prefix _ (n % 10) (omega arith)
      ∙ omega (arith, digits-digits_prefix f (n / 10) (ground arith)))
]

digit-space : (c : ℕ) → is_digit c ≡ true → is_space c ≡ false
digit-space c h = ground arith

digit-sign : (c : ℕ) → is_digit c ≡ true → ((c == b'-') ≡ false) × ((c == b'+') ≡ false)
digit-sign c h = (ground arith, ground arith)

-- A text of digits is read to its end.
parse_int-digits :
    (c : Char) (s : String)
    → all_units is_digit (c ∷ s) ≡ true
    → parse_int (c ∷ s) ≡ some (pos (digits_prefix 0 (c ∷ s)))
unfolding parse_int digits_prefix unsigned
parse_int-digits c s h =
    let (d, _) = and-eq-true (is_digit (code c)) (all_units is_digit s) h in
    let (minus, plus) = digit-sign (code c) d in
    rw (digit-space (code c) d, minus, plus, d)
      (ap (λ k. some (pos (digits_prefix k s))) (omega arith))

String-cases : (s : String) → (s ≡ []) ⊎ ((c : Char) × (t : String) × (s ≡ c ∷ t))
String-cases [] = inl refl
String-cases (c ∷ t) = inr (c, t, refl)

zero_read : parse_int (decimal 0) ≡ some (pos 0)
unfolding decimal digit parse_int unsigned digits_prefix
zero_read = refl

empty_zero : {k : ℕ} (n : ℕ) → k ≡ digits_prefix 0 [] → k ≡ suc n → ⊥
unfolding digits_prefix
empty_zero n a b = omega arith

-- What `decimal` writes is read back.
pub parse_int-decimal : (n : ℕ) → parse_int (decimal n) ≡ some (pos n)
unfolding decimal
parse_int-decimal zero = zero_read
parse_int-decimal (suc n) =
    let m = suc n in
    let same = digits-digits_prefix (suc m) m (omega arith) in
    elim (String-cases (digits (suc m) m)) [
      | inl e ↦ absurd (empty_zero n (ap (digits_prefix 0) e) same)
      | inr (c, s, e) ↦ rw e (
          parse_int-digits c s (rw e at (digits-all_units (suc m) m))
          ∙ ap (λ k. some (pos k)) (rw e at same))
    ]
