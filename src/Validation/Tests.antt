-- ===== src/Validation/Tests.antt =====
-- The pipe at concrete bodies.
use carbonchain.Prelude.{ℕ, suc, String, ◌≡◌, ◌⊎◌, refl, true, none, some, [], ◌∷◌, All}
use carbonchain.Prelude.Int.{pos}
use carbonchain.Prelude.BigInt.{big_int}
use carbonchain.Prelude.JsMap.{get, set}
use carbonchain.Prelude.Results.{ok, err, bad_request, Exception}
use carbonchain.External.Sample.{sample_sdk, sample_stellar}
use carbonchain.Credits.Service.Sample as Credits
use carbonchain.Retirement.Service.Sample as Retirement
use carbonchain.Oracle.Sample.{crypto, measured, oracle_service}
use carbonchain.Projects.{Pinning, profile, State}
use carbonchain.Projects.Sample.{config}
use carbonchain.Marketplace.{Platform}
use carbonchain.Marketplace.Amounts.{OfferCall, sent}
use carbonchain.Frontend.Retire.{failed, new_form, retire_body, submit}
use carbonchain.Frontend.Retire.Refused.{posted, retire_json, submit-post_retire}
use carbonchain.Validation.{
  JsonValue, text, whole, Body, is_valid, issue_credit_dto, decorated_issue_credit_dto,
  decorated_retire_dto,
}
use carbonchain.Validation.Bodies.{
  project_request, offer_request, post_issue_credit, post_retire, post_mrv, post_project,
  post_offer,
}
use carbonchain.Validation.Documents.{HasText, project_fields, post_project-documents_cid}
use carbonchain.Validation.Offers.{OfferFields, post_offer_lem}
use carbonchain.Validation.Refusals.{post-refused}
use carbonchain.Validation.Sample.{validator, validator_laws}

abbrev credit_body : Body String
credit_body =
    ("issuerPublicKey", text "GISSUER")
    ∷ ("projectId", text "PROJ-001")
    ∷ ("vintageYear", whole (pos 2024))
    ∷ ("methodology", text "VCS")
    ∷ ("geography", text "NG")
    ∷ ("tonnes", text "1000000")
    ∷ ("ipfsHash", text "baf")
    ∷ []

abbrev retire_body_sent : Body String
retire_body_sent = retire_json Retirement.dto

classes : Unit {0}
unfolding decorated_issue_credit_dto decorated_retire_dto big_int
classes = tt

-- The classes that are decorated would let the bodies pass that the handlers refuse.
decorated_retire : is_valid validator decorated_retire_dto retire_body_sent ≡ true
unfolding classes
decorated_retire = refl

issue_refused :
    (post_issue_credit validator Credits.p (λ b. Credits.dto) credit_body 9 Credits.start).0
    ≡ err (bad_request "Bad Request")
unfolding post_issue_credit issue_credit_dto
issue_refused = refl

post-refused_example :
    ((m : String) × (post_issue_credit validator Credits.p
          (λ b. Credits.dto)
          credit_body
          9
          Credits.start
        ≡ (err (bad_request m), Credits.start)))
    × ((m : String) × (post_retire validator Retirement.p
            (λ b. Retirement.dto)
            credit_body
            9
            Retirement.start
          ≡ (err (bad_request m), Retirement.start)))
    × ((m : String) × (post_mrv validator crypto sample_sdk sample_stellar
            (some "SADMIN")
            oracle_service
            (λ b. measured)
            credit_body
            9
            []
          ≡ (err (bad_request m), [])))
post-refused_example =
    post-refused validator validator_laws "tonnes" credit_body refl 9 Credits.p (λ b. Credits.dto)
      Credits.start Retirement.p (λ b. Retirement.dto) Retirement.start crypto sample_sdk
      sample_stellar (some "SADMIN") oracle_service (λ b. measured) []

-- A pinning service that counts the uploads.
abbrev counting : Pinning (JsonValue String)
counting = record {
  State = ℕ;
  random = λ n. ("abc", n);
  pin = λ url key secret d n. (ok "cid", suc n);
}

abbrev no_projects : State counting config
no_projects = record { projects = []; outside = 0 }

abbrev forest_body : Body String
forest_body =
    ("name", text "Forest")
    ∷ ("developer", text "GDEV")
    ∷ ("description", text "Trees")
    ∷ ("location", text "NG")
    ∷ ("methodology", text "VCS")
    ∷ ("documents_cid", text "baf")
    ∷ []

post_project-documents_cid_example :
    ((m : String) × (post_project validator counting config forest_body no_projects
        ≡ (err (bad_request m), no_projects)))
    ⊎ (All (λ n. HasText (get n forest_body)) project_fields
        × (get "documents" forest_body ≡ none)
        × (post_project validator counting config forest_body no_projects ≡ (
          ok (profile (project_request forest_body) "proj_abc" ""),
          record no_projects {
            projects = set "proj_abc" (profile (project_request forest_body) "proj_abc" "") [];
          },
        )))
post_project-documents_cid_example =
    post_project-documents_cid validator validator_laws counting config forest_body no_projects

submit-post_retire_example :
    ((submit
        (posted validator Retirement.p (λ b. Retirement.dto) 9 Retirement.start)
        "GBUYER"
        "t"
        new_form).step
      ≡ failed)
    × ((submit
          (posted validator Retirement.p (λ b. Retirement.dto) 9 Retirement.start)
          "GBUYER"
          "t"
          new_form).error_msg
        ≡ some "Unknown error.")
    × ((submit
          (posted validator Retirement.p (λ b. Retirement.dto) 9 Retirement.start)
          "GBUYER"
          "t"
          new_form).retirement_id
        ≡ none)
    × ((post_retire validator Retirement.p
          (λ b. Retirement.dto)
          (retire_json (retire_body "GBUYER" new_form))
          9
          Retirement.start).1
        ≡ Retirement.start)
submit-post_retire_example =
    submit-post_retire validator validator_laws Retirement.p (λ b. Retirement.dto) 9
      Retirement.start "GBUYER" "t" new_form

abbrev market : Platform
market = record {
  sdk = sample_sdk;
  stellar = sample_stellar;
  admin = some "SADMIN";
  contract_id = "CMKT";
  native_token_id = "CXLM";
}

-- One and a half stroops.
abbrev offer_body : Body String
offer_body =
    ("sellerPublicKey", text "GSELLER")
    ∷ ("creditId", text "0a")
    ∷ ("priceXlm", text "1.5")
    ∷ ("tonnes", text "1000000")
    ∷ []

post_offer_lem_example :
    ((m : String) × (post_offer validator market offer_body [] ≡ (err (bad_request m), [])))
    ⊎ (OfferFields validator offer_body
        × (((o : OfferCall market (offer_request offer_body)) × (post_offer validator market
                  offer_body []
                ≡ sent market (offer_request offer_body) o []))
            ⊎ ((¬ OfferCall market (offer_request offer_body))
                × ((e : Exception) × (post_offer validator market offer_body [] ≡ (err e, []))))))
post_offer_lem_example = post_offer_lem validator validator_laws market offer_body []
