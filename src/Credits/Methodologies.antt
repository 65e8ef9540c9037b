-- ===== src/Credits/Methodologies.antt =====
-- api/src/credits/methodologies.ts and validators/methodology.validator.ts. A text is a sequence of
-- code points; JavaScript's `length` and the regular expression read UTF-16 code units, of which a code
-- point from 0x10000 on has two, none of them in the expression's class.
pub mod Names
mod Tests
use Prim.Native.String.{[], ◌∷◌}
use Prim.Native.Char.{code}
use carbonchain.Prelude.{
  ℕ, ◌+◌, ◌≤◌, String, ◌+++◌, ◌≡◌, ◌≢◌, ◌↔◌, ◌⊎◌, inl, inr, refl, ap, sym, ◌∙◌, Bool, true, false,
  ◌&&◌, ◌||◌, not, Option, none, some, arith, ltb, leb, ◌==◌, ◌===◌, ===_iff, is_empty,
  if◌then◌else◌, Bool-cases,
}
use carbonchain.Prelude.Text.{is_space, trim, all_units}

-- `VALID_METHODOLOGIES.includes(s)`
pub is_predefined : String → Bool
is_predefined s =
    s === "REDD+" || s === "VCS" || s === "Gold Standard" || s === "CDM" || s === "Plan Vivo"

abbrev pub utf16_units : ℕ → ℕ
utf16_units c = if ltb c 0x10000 then 1 else 2

-- `s.length`
abbrev pub utf16_length : String → ℕ
utf16_length [] = 0
utf16_length (c ∷ s) = utf16_units (code c) + utf16_length s

-- The class `[a-zA-Z0-9\-_\s]`
abbrev pub is_custom_unit : ℕ → Bool
is_custom_unit c =
    (leb 0x61 c && leb c 0x7a)
    || (leb 0x41 c && leb c 0x5a)
    || (leb 0x30 c && leb c 0x39)
    || c == 0x2d
    || c == 0x5f
    || is_space c

-- `/^[a-zA-Z0-9\-_\s]{1,50}$/.test(s)`
abbrev pub is_custom : String → Bool
is_custom s = all_units is_custom_unit s && leb 1 (utf16_length s) && leb (utf16_length s) 50

pub is_valid_methodology : String → Bool
is_valid_methodology s = if is_empty s then false else if is_predefined s then true else is_custom s

pub validate_methodology : String → Option String
validate_methodology s =
    if is_empty s
    then some "Methodology must be a non-empty string"
    else if trim s === ""
    then some "Methodology cannot be empty"
    else if ltb 50 (utf16_length s)
    then some "Methodology must be 50 characters or less"
    else if not (is_valid_methodology s)
    then some (
        "Invalid methodology: \""
        +++ (s
            +++ "\". Must be one of: REDD+, VCS, Gold Standard, CDM, Plan Vivo, or a valid custom methodology"))
    else none

abbrev pub is_none : Option String → Bool
is_none none = true
is_none (some e) = false

-- `IsValidMethodologyConstraint.validate` of a text.
pub validate : String → Bool
validate s = is_none (validate_methodology s)
