-- ===== src/Validation/Bodies.antt =====
-- The handlers of the controllers whose body is an object of a class: the pipe, then the service. What a
-- service reads from an object is a parameter where no class is checked.
use carbonchain.Prelude.{ℕ, zero, String, false, Option, none, some, is_empty, if◌then◌else◌}
use carbonchain.Prelude.Int.{pos}
use carbonchain.Prelude.JsMap.{get}
use carbonchain.Prelude.Results.{Io, ◌>>=◌, lift}
use carbonchain.Shared.{ProjectProfile}
use carbonchain.Credits.Service.{
  IssueCreditDto, Platform as CreditsPlatform, State as CreditsState, issue_credit,
}
use carbonchain.Retirement.Service.{
  RetireDto, Receipt, Platform as RetirementPlatform, State as RetirementState, retire,
}
use carbonchain.External.{Sdk, Stellar}
use carbonchain.Oracle.{MrvWebhookDto, OracleService, Crypto, Anomaly, ingest_mrv_data}
use carbonchain.Projects.{Pinning, Config, ProjectRequest, State as ProjectsState, create_project}
use carbonchain.Marketplace.{CreateOfferDto, Platform as MarketPlatform, create_offer}
use carbonchain.Validation.{
  JsonValue, null, flag, text, whole, Body, class, ClassValidator, issue_credit_dto, retire_dto,
  mrv_webhook_dto, create_project_dto, create_offer_dto,
}

-- A field that a decorated class has shown to be a text.
abbrev pub text_of : {D : Type 0} → Option (JsonValue D) → String
text_of (some (text s)) = s
text_of _ = ""

-- `if (data.documents)`
abbrev pub truthy : {D : Type 0} → Option (JsonValue D) → Option (JsonValue D)
truthy none = none
truthy (some null) = none
truthy (some (flag false)) = none
truthy (some (text s)) = if is_empty s then none else some (text s)
truthy (some (whole (pos zero))) = none
truthy (some v) = some v

-- What `createProject` and `createOffer` read from the object.
abbrev pub project_request : {D : Type 0} → Body D → ProjectRequest (JsonValue D)
project_request b = record {
  name = text_of (get "name" b);
  developer = text_of (get "developer" b);
  description = text_of (get "description" b);
  location = text_of (get "location" b);
  methodology = text_of (get "methodology" b);
  documents = truthy (get "documents" b);
}

abbrev pub offer_request : {D : Type 0} → Body D → CreateOfferDto
offer_request b = record {
  seller_public_key = text_of (get "sellerPublicKey" b);
  credit_id = text_of (get "creditId" b);
  price_xlm = text_of (get "priceXlm" b);
  tonnes = text_of (get "tonnes" b);
}

module _ {D : Type 0} (v : ClassValidator D) where
  unfoldable pub post_issue_credit :
      (p : CreditsPlatform) → (Body D → IssueCreditDto) → Body D → ℕ → Io (CreditsState p) String
  post_issue_credit p read body now =
      lift (v.transform (class issue_credit_dto) body) >>= λ dto. issue_credit p (read dto) now

  unfoldable pub post_retire :
      (p : RetirementPlatform) → (Body D → RetireDto) → Body D → ℕ → Io (RetirementState p) Receipt
  post_retire p read body now =
      lift (v.transform (class retire_dto) body) >>= λ dto. retire p (read dto) now

  unfoldable pub post_mrv :
      (crypto : Crypto) (sdk : Sdk) (stellar : Stellar sdk)
      → Option sdk.Keypair
      → OracleService
      → (Body D → MrvWebhookDto)
      → Body D
      → ℕ
      → Io stellar.Chain Anomaly
  post_mrv crypto sdk stellar admin o read body now =
      lift (v.transform (class mrv_webhook_dto) body) >>= λ dto.
      ingest_mrv_data crypto sdk stellar admin o (read dto) now

  unfoldable pub post_project :
      (pinning : Pinning (JsonValue D)) (config : Config)
      → Body D
      → Io (ProjectsState pinning config) ProjectProfile
  post_project pinning config body = lift (v.transform (class create_project_dto) body) >>= λ dto.
      create_project pinning config (project_request dto)

  unfoldable pub post_offer : (p : MarketPlatform) → Body D → Io p.stellar.Chain String
  post_offer p body =
      lift (v.transform (class create_offer_dto) body) >>= λ dto. create_offer p (offer_request dto)
