-- ===== src/Credits/Methodologies/Tests.antt =====
-- Names of methodologies at concrete inputs.
use carbonchain.Prelude.{◌≡◌, ◌↔◌, ◌⊎◌, refl, true, false, none, some}
use carbonchain.Prelude.Text.{trim}
use carbonchain.Credits.Methodologies.{
  is_predefined, is_valid_methodology, validate_methodology, validate,
}
use carbonchain.Credits.Methodologies.Names.{IsCustom, validate_methodology_iff}

-- A custom name without the prefix `Custom-`, a name with a letter that is not ASCII, and white space.
names :
    (validate "MyOwn 2" ≡ true)
    × (validate "Méthode" ≡ false)
    × (validate_methodology "  " ≡ some "Methodology cannot be empty")
unfolding validate validate_methodology is_valid_methodology is_predefined trim
names = (refl, refl, refl)

validate_methodology_iff_example :
    (validate_methodology "MyOwn 2" ≡ none)
    ↔ ((is_predefined "MyOwn 2" ≡ true) ⊎ IsCustom "MyOwn 2")
validate_methodology_iff_example = validate_methodology_iff "MyOwn 2"
