-- ===== src/Validation.antt =====
-- What stands between a request and a controller: the global `ValidationPipe` of api/src/main.ts, the
-- classes that the `@Body()` parameters of the controllers name, and the decorators of their fields.
-- class-validator and the pipe are parameters; a body is a JSON object.
pub mod Bodies
pub mod Refusals
pub mod Documents
pub mod Offers
mod Tests
pub mod Sample
use carbonchain.Prelude.{
  ℕ, String, ◌≡◌, Bool, true, false, ◌&&◌, not, Option, none, some, List, [], ◌∷◌, ◌===◌, is_empty,
  any, all,
}
use carbonchain.Prelude.Int.{ℤ, pos, leb_ℤ}
use carbonchain.Prelude.JsMap.{JsMap, get}
use carbonchain.Prelude.Results.{Result, ok, err, bad_request}
use carbonchain.Credits.Methodologies.{validate}

-- A field of a JSON object; `json` stands for fractions, arrays and objects.
pub data JsonValue (D : Type 0) : Type 0 where
  null : JsonValue D
  flag : Bool → JsonValue D
  text : String → JsonValue D
  whole : ℤ → JsonValue D
  json : D → JsonValue D

abbrev pub Body : Type 0 → Type 0
Body D = JsMap (JsonValue D)

pub data Decorator : Type 0 where
  is_string is_not_empty is_int is_number_string is_valid_methodology : Decorator
  at_least at_most : ℤ → Decorator

pub record Property : Type 0 where
  pub name : String
  pub decorators : List Decorator

-- The type of a parameter at run time: a class with the fields that it declares, or one that the pipe
-- does not look at, as the `Object` of an interface or of a type literal.
pub data Metatype : Type 0 where
  class : List Property → Metatype
  object : Metatype

-- `IsValidMethodologyConstraint.validate`, of a field that may be missing.
unfoldable pub validate_field : {D : Type 0} → Option (JsonValue D) → Bool
validate_field (some (text s)) = validate s
validate_field _ = false

pub record ClassValidator (D : Type 0) : Type 0 where
  pub accepts : Decorator → Option (JsonValue D) → Bool
  pub is_numeric : String → Bool
  -- The `transform` of the pipe with the options of main.ts.
  pub transform : Metatype → Body D → Result (Body D)

abbrev pub has_decorators : List Decorator → Bool
has_decorators [] = false
has_decorators (d ∷ ds) = true

abbrev pub is_decorated : String → Property → Bool
is_decorated k p = p.name === k && has_decorators p.decorators

abbrev pub is_whitelisted : List Property → String → Bool
is_whitelisted c k = any (is_decorated k) c

module _ {D : Type 0} (v : ClassValidator D) where
  abbrev pub accepts_all : Option (JsonValue D) → List Decorator → Bool
  accepts_all f ds = all (λ d. v.accepts d f) ds

  -- Every field is whitelisted, and every decorator accepts its field.
  abbrev pub is_valid : List Property → Body D → Bool
  is_valid c b =
      all (λ f. is_whitelisted c f.0) b && all (λ p. accepts_all (get p.name b) p.decorators) c

-- What is documented of class-validator, and of the pipe with `whitelist` and `forbidNonWhitelisted`.
pub record ClassValidatorLaws {D : Type 0} (v : ClassValidator D) : Type 0 where
  pub object_passes : (b : Body D) → v.transform object b ≡ ok b
  pub valid_passes :
      (c : List Property) (b : Body D) → is_valid v c b ≡ true → v.transform (class c) b ≡ ok b
  pub invalid_refused :
      (c : List Property) (b : Body D)
      → is_valid v c b ≡ false
      → (message : String) × (v.transform (class c) b ≡ err (bad_request message))
  pub is_string_text :
      (f : Option (JsonValue D)) → v.accepts is_string f ≡ true → (s : String) × (f ≡ some (text s))
  pub is_not_empty_text : (s : String) → v.accepts is_not_empty (some (text s)) ≡ not (is_empty s)
  pub is_number_string_text :
      (f : Option (JsonValue D))
      → v.accepts is_number_string f ≡ true
      → (s : String) × (f ≡ some (text s)) × (v.is_numeric s ≡ true)
  pub is_valid_methodology_iff :
      (f : Option (JsonValue D)) → v.accepts is_valid_methodology f ≡ validate_field f

abbrev property : String → List Decorator → Property
property n ds = record { name = n; decorators = ds }

abbrev required_text : String → Property
required_text n = property n (is_string ∷ is_not_empty ∷ [])

abbrev required_number : String → Property
required_number n = property n (is_number_string ∷ is_not_empty ∷ [])

abbrev undecorated : String → Property
undecorated n = property n []

-- The classes that the controllers name. Those of the credits, retirement and oracle controllers are
-- declared in the files of the services.
unfoldable pub issue_credit_dto : List Property
issue_credit_dto =
    undecorated "issuerPublicKey"
    ∷ undecorated "projectId"
    ∷ undecorated "vintageYear"
    ∷ undecorated "methodology"
    ∷ undecorated "geography"
    ∷ undecorated "tonnes"
    ∷ undecorated "ipfsHash"
    ∷ []

unfoldable pub retire_dto : List Property
retire_dto =
    undecorated "buyerPublicKey"
    ∷ undecorated "creditId"
    ∷ undecorated "tonnes"
    ∷ undecorated "reason"
    ∷ []

unfoldable pub mrv_webhook_dto : List Property
mrv_webhook_dto =
    undecorated "oraclePublicKey"
    ∷ undecorated "projectId"
    ∷ undecorated "tonnesSequestered"
    ∷ undecorated "signature"
    ∷ []

unfoldable pub create_project_dto : List Property
create_project_dto =
    required_text "name"
    ∷ required_text "developer"
    ∷ required_text "description"
    ∷ required_text "location"
    ∷ required_text "methodology"
    ∷ required_text "documents_cid"
    ∷ []

unfoldable pub create_offer_dto : List Property
create_offer_dto =
    required_text "sellerPublicKey"
    ∷ required_text "creditId"
    ∷ required_number "priceXlm"
    ∷ required_number "tonnes"
    ∷ []

-- The classes of the same names that are decorated, which no controller names.
unfoldable pub decorated_issue_credit_dto : List Property
decorated_issue_credit_dto =
    required_text "issuerPublicKey"
    ∷ required_text "projectId"
    ∷ property "vintageYear" (is_int ∷ at_least (pos 1990) ∷ at_most (pos 2100) ∷ [])
    ∷ property "methodology" (is_string ∷ is_not_empty ∷ is_valid_methodology ∷ [])
    ∷ required_text "geography"
    ∷ required_number "tonnes"
    ∷ required_text "ipfsHash"
    ∷ []

unfoldable pub decorated_retire_dto : List Property
decorated_retire_dto =
    required_text "buyerPublicKey"
    ∷ required_text "creditId"
    ∷ required_number "tonnes"
    ∷ required_text "reason"
    ∷ []
