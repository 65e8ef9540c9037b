-- ===== src/Oracle/Signatures.antt =====
-- What the signature of a measurement protects.
use carbonchain.Prelude.{
  ℕ, String, ◌≡◌, ◌≢◌, refl, inl, inr, ◌⊎◌, Option, arith, ◌==◌, ap, Bool-cases,
}
use carbonchain.Prelude.Results.{ok, err, unauthorized}
use carbonchain.External.{Sdk, Stellar}
use carbonchain.Oracle.{
  MrvWebhookDto, Crypto, CryptoLaws, OracleService, expected, actual, validate_signature,
  update_mrv_data, ingest_mrv_data,
}

module _ (crypto : Crypto) (laws : CryptoLaws crypto) (sdk : Sdk) (stellar : Stellar sdk)
    (admin : Option sdk.Keypair) where
  same_test :
      (o : OracleService) (dto : MrvWebhookDto)
      → expected crypto sdk stellar admin o dto ≡ actual crypto sdk stellar admin dto
      → validate_signature crypto sdk stellar admin o dto ≡ ok tt
  unfolding validate_signature
  same_test o dto h =
      let e = expected crypto sdk stellar admin o dto in
      let a = actual crypto sdk stellar admin dto in
      let size = ap crypto.byte_length h in
      ground (arith, (laws.timing_safe_equal_iff e a size).1 h, size)

  other_test :
      (o : OracleService) (dto : MrvWebhookDto)
      → expected crypto sdk stellar admin o dto ≢ actual crypto sdk stellar admin dto
      → validate_signature crypto sdk stellar admin o dto
        ≡ err (unauthorized "Invalid oracle signature")
  unfolding validate_signature
  other_test o dto h =
      let e = expected crypto sdk stellar admin o dto in
      let a = actual crypto sdk stellar admin dto in
      elim (Bool-cases (crypto.byte_length e == crypto.byte_length a)) [
        | inr q ↦ ground (arith, q)
        | inl q ↦ elim (Bool-cases (crypto.timing_safe_equal e a)) [
          | inl t ↦ absurd (h ((laws.timing_safe_equal_iff e a (ground (arith, q))).0 t))
          | inr t ↦ ground (arith, q, t)
        ]
      ]

  decided :
      (o : OracleService) (dto : MrvWebhookDto)
      → (expected crypto sdk stellar admin o dto ≡ actual crypto sdk stellar admin dto)
        ⊎ (expected crypto sdk stellar admin o dto ≢ actual crypto sdk stellar admin dto)
  decided o dto =
      let e = expected crypto sdk stellar admin o dto in
      let a = actual crypto sdk stellar admin dto in
      elim (Bool-cases (crypto.byte_length e == crypto.byte_length a)) [
        | inr q ↦ inr (λ h. ground (arith, q, ap crypto.byte_length h))
        | inl q ↦
            let test = laws.timing_safe_equal_iff e a (ground (arith, q)) in
            elim (Bool-cases (crypto.timing_safe_equal e a)) [
              | inl t ↦ inl (test.0 t)
              | inr t ↦ inr (λ h. ground (arith, t, test.1 h))
            ]
      ]

  -- The measurement with the name of another oracle.
  abbrev pub from_oracle : String → MrvWebhookDto → MrvWebhookDto
  from_oracle oracle dto = record dto { oracle_public_key = oracle }

  -- A measurement whose signature is not the digest of its project and tonnes is refused, and nothing
  -- is invoked. One whose signature is that digest is handed to the update of the contract, at any time,
  -- as often as it comes and whichever oracle it names.
  pub ingest_mrv_data_lem :
      (o : OracleService) (dto : MrvWebhookDto)
      → ((expected crypto sdk stellar admin o dto ≡ actual crypto sdk stellar admin dto)
          × ((oracle : String) (now : ℕ) (c : stellar.Chain)
              → ingest_mrv_data crypto sdk stellar admin o (from_oracle oracle dto) now c
                ≡ update_mrv_data crypto sdk stellar admin o (from_oracle oracle dto) now c))
        ⊎ ((expected crypto sdk stellar admin o dto ≢ actual crypto sdk stellar admin dto)
            × ((oracle : String) (now : ℕ) (c : stellar.Chain)
                → ingest_mrv_data crypto sdk stellar admin o (from_oracle oracle dto) now c
                  ≡ (err (unauthorized "Invalid oracle signature"), c)))
  unfolding ingest_mrv_data
  ingest_mrv_data_lem o dto = elim (decided o dto) [
    | inl h ↦ inl (h, λ oracle now c. rw (same_test o (from_oracle oracle dto) h) refl)
    | inr h ↦ inr (h, λ oracle now c. rw (other_test o (from_oracle oracle dto) h) refl)
  ]
