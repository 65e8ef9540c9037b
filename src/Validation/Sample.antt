-- ===== src/Validation/Sample.antt =====
-- A validator that the tests use: a number is a text that BigInt reads, or 1.5.
use carbonchain.Prelude.{
  String, ◌≡◌, refl, Bool, true, false, ◌||◌, not, Option, none, some, List, ◌===◌, is_empty,
  if◌then◌else◌,
}
use carbonchain.Prelude.Int.{ℤ, leb_ℤ}
use carbonchain.Prelude.BigInt.{big_int}
use carbonchain.Prelude.Results.{Result, ok, err, bad_request}
use carbonchain.Validation.{
  JsonValue, null, flag, text, whole, json, Body, Decorator, is_string, is_not_empty, is_int,
  is_number_string, is_valid_methodology, at_least, at_most, Property, Metatype, class, object,
  validate_field, ClassValidator, ClassValidatorLaws, is_valid,
}

abbrev is_some : Option ℤ → Bool
is_some none = false
is_some (some n) = true

abbrev is_numeric_text : String → Bool
is_numeric_text s = is_some (big_int s) || s === "1.5"

abbrev accepted : Decorator → Option (JsonValue String) → Bool
accepted is_string (some (text s)) = true
accepted is_not_empty (some (text s)) = not (is_empty s)
accepted is_not_empty (some (whole n)) = true
accepted is_int (some (whole n)) = true
accepted is_number_string (some (text s)) = is_numeric_text s
accepted is_valid_methodology f = validate_field f
accepted (at_least m) (some (whole n)) = leb_ℤ m n
accepted (at_most m) (some (whole n)) = leb_ℤ n m
accepted d f = false

abbrev without_pipe : ClassValidator String
without_pipe = record { accepts = accepted; is_numeric = is_numeric_text; transform = λ m b. ok b }

abbrev transformed : Metatype → Body String → Result (Body String)
transformed object b = ok b
transformed (class c) b =
    if is_valid without_pipe c b then ok b else err (bad_request "Bad Request")

abbrev pub validator : ClassValidator String
validator = record without_pipe { transform = transformed }

passes :
    (c : List Property) (b : Body String)
    → is_valid validator c b ≡ true
    → transformed (class c) b ≡ ok b
passes c b h = rw h refl

refuses :
    (c : List Property) (b : Body String)
    → is_valid validator c b ≡ false
    → (message : String) × (transformed (class c) b ≡ err (bad_request message))
refuses c b h = ("Bad Request", rw h refl)

texts :
    (f : Option (JsonValue String))
    → accepted is_string f ≡ true
    → (s : String) × (f ≡ some (text s))
texts none h = cc
texts (some null) h = cc
texts (some (flag b)) h = cc
texts (some (text s)) h = (s, refl)
texts (some (whole n)) h = cc
texts (some (json d)) h = cc

numbers :
    (f : Option (JsonValue String))
    → accepted is_number_string f ≡ true
    → (s : String) × (f ≡ some (text s)) × (is_numeric_text s ≡ true)
numbers none h = cc
numbers (some null) h = cc
numbers (some (flag b)) h = cc
numbers (some (text s)) h = (s, refl, h)
numbers (some (whole n)) h = cc
numbers (some (json d)) h = cc

pub validator_laws : ClassValidatorLaws validator
validator_laws = record {
  object_passes = λ b. refl;
  valid_passes = passes;
  invalid_refused = refuses;
  is_string_text = texts;
  is_not_empty_text = λ s. refl;
  is_number_string_text = numbers;
  is_valid_methodology_iff = λ f. refl;
}
