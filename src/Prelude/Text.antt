-- ===== src/Prelude/Text.antt =====
-- The operations of JavaScript's `String` that the program uses, over the native texts.
use Prim.Native.Nat.{ℕ}
use Prim.Native.Char.{Char, code}
use mathlib.Core.Path.{◌≡◌, refl, ap, ◌∙◌}
use mathlib.Core.Logic.{inl, inr}
use Prim.Native.String.{String, [], ◌∷◌}
use mathlib.Core.Bool.{Bool, true, false, ◌&&◌, ◌||◌}
use carbonchain.Prelude.Tests.{if◌then◌else◌, ◌===◌, ◌==◌, leb, Bool-cases, ===_of_ne}

-- White space and line terminators, what `trim` removes and `\s` matches.
abbrev pub is_space : ℕ → Bool
is_space c =
    (leb 0x9 c && leb c 0xd)
    || c == 0x20
    || c == 0xa0
    || c == 0x1680
    || (leb 0x2000 c && leb c 0x200a)
    || c == 0x2028
    || c == 0x2029
    || c == 0x202f
    || c == 0x205f
    || c == 0x3000
    || c == 0xfeff

unfoldable pub trim_start : String → String
trim_start [] = []
trim_start (c ∷ s) = let rest = trim_start s in if is_space (code c) then rest else c ∷ s

trim_end : String → String
trim_end [] = []
trim_end (c ∷ s) =
    let rest = trim_end s in if rest === "" && is_space (code c) then [] else c ∷ rest

unfoldable pub trim : String → String
unfolding trim_start trim_end
trim s = trim_end (trim_start s)

abbrev pub all_units : (ℕ → Bool) → String → Bool
all_units p [] = true
all_units p (c ∷ s) = p (code c) && all_units p s

trim_start-space : (s : String) → all_units is_space (trim_start s) ≡ all_units is_space s
unfolding trim_start
trim_start-space [] = refl
trim_start-space (c ∷ s) = elim (Bool-cases (is_space (code c))) [
  | inl e ↦ rw e (trim_start-space s)
  | inr e ↦ rw e (rw e refl)
]

pub cons-ne-empty : (c : Char) (s : String) → ((c ∷ s) === "") ≡ false
cons-ne-empty c s = ===_of_ne (c ∷ s) "" (λ e. cc)

kept-empty :
    (c : Char) (r : String) (space : Bool)
    → ((if r === "" && space then "" else c ∷ r) === "") ≡ (space && (r === ""))
kept-empty c r true = elim (Bool-cases (r === "")) [
  | inl e ↦ rw e refl
  | inr e ↦ rw e (cons-ne-empty c r)
]
kept-empty c r false = elim (Bool-cases (r === "")) [
  | inl e ↦ rw e (cons-ne-empty c r)
  | inr e ↦ rw e (cons-ne-empty c r)
]

trim_end-space : (s : String) → (trim_end s === "") ≡ all_units is_space s
unfolding trim_end
trim_end-space [] = refl
trim_end-space (c ∷ s) =
    kept-empty c (trim_end s) (is_space (code c)) ∙ ap (◌&&◌ (is_space (code c))) (trim_end-space s)

-- Nothing is left exactly of a text of white space.
pub trim-empty : (s : String) → (trim s === "") ≡ all_units is_space s
unfolding trim
trim-empty s = trim_end-space (trim_start s) ∙ trim_start-space s

-- `s.split(',')[0]`
unfoldable pub before_comma : String → String
before_comma [] = []
before_comma (c ∷ s) = let rest = before_comma s in if code c == b',' then [] else c ∷ rest
