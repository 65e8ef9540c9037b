-- ===== src/Validation/Refusals.antt =====
-- Which bodies the pipe lets through.
use carbonchain.Prelude.{
  ℕ, String, ◌≡◌, inl, inr, Bool, true, false, Option, some, List, [], ◌∷◌, all, ◌===◌, ===_iff,
  arith, Bool-cases, and-eq-true,
}
use carbonchain.Prelude.JsMap.{get}
use carbonchain.Prelude.Results.{err, bad_request, lift-err, Io, ◌>>=◌, lift}
use carbonchain.External.{Sdk, Stellar}
use carbonchain.Oracle.{MrvWebhookDto, OracleService, Crypto}
use carbonchain.Credits.Service.{IssueCreditDto, Platform as CreditsPlatform, State as CreditsState}
use carbonchain.Retirement.Service.{
  RetireDto, Platform as RetirementPlatform, State as RetirementState,
}
use carbonchain.Validation.{
  JsonValue, Body, Property, class, ClassValidator, ClassValidatorLaws, is_whitelisted, is_valid,
  issue_credit_dto, retire_dto, mrv_webhook_dto,
}
use carbonchain.Validation.Bodies.{post_issue_credit, post_retire, post_mrv}

-- A field that is sent is among those that the whitelist is asked for.
pub all-get :
    {D : Type 0} (test : String → Bool) (k : String) {x : JsonValue D} (b : Body D)
    → get k b ≡ some x
    → all (λ f. test f.0) b ≡ true
    → test k ≡ true
all-get test k [] h a = cc
all-get test k ((j, w) ∷ b) h a = elim (Bool-cases (j === k)) [
  | inl e ↦ rw (← (===_iff j k).0 e) (and-eq-true _ _ a).0
  | inr e ↦ all-get test k b (rw e at h) (and-eq-true _ _ a).1
]

issue_credit_unknown : (k : String) → is_whitelisted issue_credit_dto k ≡ false
unfolding issue_credit_dto
issue_credit_unknown k = ground arith

retire_unknown : (k : String) → is_whitelisted retire_dto k ≡ false
unfolding retire_dto
retire_unknown k = ground arith

mrv_unknown : (k : String) → is_whitelisted mrv_webhook_dto k ≡ false
unfolding mrv_webhook_dto
mrv_unknown k = ground arith

module _ {D : Type 0} (v : ClassValidator D) (laws : ClassValidatorLaws v) where
  pub not_whitelisted :
      (c : List Property) (k : String) {x : JsonValue D} (b : Body D)
      → get k b ≡ some x
      → is_whitelisted c k ≡ false
      → (message : String) × (v.transform (class c) b ≡ err (bad_request message))
  not_whitelisted c k b sent unknown = elim (Bool-cases (is_valid v c b)) [
    | inr invalid ↦ laws.invalid_refused c b invalid
    | inl valid ↦
        let known = all-get (is_whitelisted c) k b sent (and-eq-true _ _ valid).0 in
        absurd (ground (arith, known, unknown))
  ]

  refused-then :
      {S B : Type 0} (c : List Property) (k : String) {x : JsonValue D} (b : Body D)
      (f : Body D → Io S B) (s : S)
      → get k b ≡ some x
      → is_whitelisted c k ≡ false
      → (m : String) × ((lift (v.transform (class c) b) >>= f) s ≡ (err (bad_request m), s))
  refused-then c k b f s sent unknown =
      let (m, e) = not_whitelisted c k b sent unknown in
      (m, lift-err (v.transform (class c) b) f s {e = bad_request m} e)

  issue_credit-refused :
      (k : String) {x : JsonValue D} (body : Body D)
      → get k body ≡ some x
      → (now : ℕ) (p : CreditsPlatform) (read : Body D → IssueCreditDto) (s : CreditsState p)
      → (m : String) × (post_issue_credit v p read body now s ≡ (err (bad_request m), s))
  unfolding post_issue_credit
  issue_credit-refused k body sent now p read s =
      refused-then issue_credit_dto k body _ s sent (issue_credit_unknown k)

  pub retire-refused :
      (k : String) {x : JsonValue D} (body : Body D)
      → get k body ≡ some x
      → (now : ℕ) (p : RetirementPlatform) (read : Body D → RetireDto) (s : RetirementState p)
      → (m : String) × (post_retire v p read body now s ≡ (err (bad_request m), s))
  unfolding post_retire
  retire-refused k body sent now p read s =
      refused-then retire_dto k body _ s sent (retire_unknown k)

  mrv-refused :
      (k : String) {x : JsonValue D} (body : Body D)
      → get k body ≡ some x
      → (now : ℕ) (crypto : Crypto) (sdk : Sdk) (stellar : Stellar sdk) (admin : Option sdk.Keypair)
        (o : OracleService) (read : Body D → MrvWebhookDto) (chain : stellar.Chain)
      → (m : String) × (post_mrv v crypto sdk stellar admin o read body now chain
          ≡ (err (bad_request m), chain))
  unfolding post_mrv
  mrv-refused k body sent now crypto sdk stellar admin o read chain =
      refused-then mrv_webhook_dto k body _ chain sent (mrv_unknown k)

  -- A body with any field, sent to POST /credits/issue, POST /retirement or the webhook of the oracles, is
  -- refused as a bad request, and nothing is issued, retired or recorded: the classes that these
  -- controllers name have no decorators, so that no field is whitelisted.
  pub post-refused :
      (k : String) {x : JsonValue D} (body : Body D)
      → get k body ≡ some x
      → (now : ℕ) (credits : CreditsPlatform) (read_credit : Body D → IssueCreditDto)
        (c : CreditsState credits) (retirement : RetirementPlatform)
        (read_retire : Body D → RetireDto) (r : RetirementState retirement) (crypto : Crypto)
        (sdk : Sdk) (stellar : Stellar sdk) (admin : Option sdk.Keypair) (o : OracleService)
        (read_mrv : Body D → MrvWebhookDto) (chain : stellar.Chain)
      → ((m : String) × (post_issue_credit v credits read_credit body now c
            ≡ (err (bad_request m), c)))
        × ((m : String) × (post_retire v retirement read_retire body now r
              ≡ (err (bad_request m), r)))
        × ((m : String) × (post_mrv v crypto sdk stellar admin o read_mrv body now chain
              ≡ (err (bad_request m), chain)))
  post-refused k body sent now credits read_credit c retirement read_retire r crypto sdk stellar
        admin o read_mrv chain =
      (
        issue_credit-refused k body sent now credits read_credit c,
        retire-refused k body sent now retirement read_retire r,
        mrv-refused k body sent now crypto sdk stellar admin o read_mrv chain,
      )
