-- ===== src/Frontend/Retire/Refused.antt =====
-- The form against the API with its pipe.
use carbonchain.Prelude.{ℕ, String, ◌≡◌, refl, ap, some, [], ◌∷◌}
use carbonchain.Prelude.Results.{Result, ok, err}
use carbonchain.Retirement.Service.{RetireDto, Receipt, Platform, State}
use carbonchain.Validation.{text, Body, ClassValidator, ClassValidatorLaws}
use carbonchain.Validation.Bodies.{post_retire}
use carbonchain.Validation.Refusals.{retire-refused}
use carbonchain.Frontend.{Outcome, fulfilled, rejected, other, message_of}
use carbonchain.Frontend.Retire.{failed, RetireForm, retire_body, submit}

-- The answer over HTTP, of which the form reads the id.
abbrev pub answer_of : Result Receipt → Outcome String
answer_of (ok receipt) = fulfilled receipt.retirement_id
answer_of (err e) = rejected other

-- The JSON object that `ApiService.retire` sends.
abbrev pub retire_json : {D : Type 0} → RetireDto → Body D
retire_json dto =
    ("buyerPublicKey", text dto.buyer_public_key)
    ∷ ("creditId", text dto.credit_id)
    ∷ ("tonnes", text dto.tonnes)
    ∷ ("reason", text dto.reason)
    ∷ []

module _ {D : Type 0} (v : ClassValidator D) (p : Platform) where
  abbrev pub posted : (Body D → RetireDto) → ℕ → State p → RetireDto → String → Outcome String
  posted read now s dto token = answer_of (post_retire v p read (retire_json dto) now s).0

module _ {D : Type 0} (v : ClassValidator D) (laws : ClassValidatorLaws v) (p : Platform) where
  -- Whatever the form holds, and whoever submits it: the API refuses it and retires nothing, and the form
  -- ends in the step of failure with an unknown error and without a new id.
  pub submit-post_retire :
      (read : Body D → RetireDto) (now : ℕ) (s : State p) (buyer token : String) (f : RetireForm)
      → ((submit (posted v p read now s) buyer token f).step ≡ failed)
        × ((submit (posted v p read now s) buyer token f).error_msg ≡ some "Unknown error.")
        × ((submit (posted v p read now s) buyer token f).retirement_id ≡ f.retirement_id)
        × ((post_retire v p read (retire_json (retire_body buyer f)) now s).1 ≡ s)
  unfolding submit message_of
  submit-post_retire read now s buyer token f =
      let body = retire_json {D = D} (retire_body buyer f) in
      let (m, e) = retire-refused v laws "tonnes" body refl now p read s in
      let refused = ap (λ a. a.0) e in
      (rw refused refl, rw refused refl, rw refused refl, ap (λ a. a.1) e)
