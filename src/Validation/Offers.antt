-- ===== src/Validation/Offers.antt =====
-- POST /marketplace/offer with the pipe: which offers reach the contract.
use carbonchain.Prelude.{
  String, ◌≡◌, ◌∙◌, ◌⊎◌, inl, inr, true, Option, some, [], ◌∷◌, all, arith, Bool-cases, and-eq-true,
}
use carbonchain.Prelude.JsMap.{get}
use carbonchain.Prelude.Results.{err, bad_request, Exception, lift-err, lift-ok}
use carbonchain.Marketplace.{Platform, create_offer}
use carbonchain.Marketplace.Amounts.{OfferCall, sent, create_offer-cases}
use carbonchain.Validation.{
  JsonValue, text, Body, Property, is_not_empty, is_number_string, ClassValidator,
  ClassValidatorLaws, accepts_all, is_valid, create_offer_dto,
}
use carbonchain.Validation.Bodies.{offer_request, post_offer}
use carbonchain.Validation.Documents.{HasText, required_text-HasText}

module _ {D : Type 0} (v : ClassValidator D) where
  -- A field with a text that class-validator takes for a number.
  abbrev pub HasNumber : Option (JsonValue D) → Type 0
  HasNumber f = (s : String) × (f ≡ some (text s)) × (v.is_numeric s ≡ true)

  pub record OfferFields (b : Body D) : Type 0 where
    pub seller : HasText (get "sellerPublicKey" b)
    pub credit : HasText (get "creditId" b)
    pub price : HasNumber (get "priceXlm" b)
    pub tonnes : HasNumber (get "tonnes" b)

module _ {D : Type 0} (v : ClassValidator D) (laws : ClassValidatorLaws v) where
  required_number-HasNumber :
      (f : Option (JsonValue D))
      → accepts_all v f (is_number_string ∷ is_not_empty ∷ []) ≡ true
      → HasNumber v f
  required_number-HasNumber f h = laws.is_number_string_text f (ground arith)

  accepted-OfferFields :
      (b : Body D)
      → all (λ (p : Property). accepts_all v (get p.name b) p.decorators) create_offer_dto ≡ true
      → OfferFields v b
  unfolding create_offer_dto
  accepted-OfferFields b h =
      let (h1, r1) = and-eq-true _ _ h in
      let (h2, r2) = and-eq-true _ _ r1 in
      let (h3, r3) = and-eq-true _ _ r2 in
      let (h4, _) = and-eq-true _ _ r3 in
      record {
        seller = required_text-HasText v laws _ h1;
        credit = required_text-HasText v laws _ h2;
        price = required_number-HasNumber _ h3;
        tonnes = required_number-HasNumber _ h4;
      }

  -- A body sent to POST /marketplace/offer has one of three ends. It is refused as a bad request; or its
  -- four fields are texts, price and tonnes numeric, and the contract is called with just these, price and
  -- tonnes as the whole numbers that BigInt reads, the answer being read from the contract's; or the four fields are
  -- such texts but no such call is possible, since BigInt does not read the price or the tonnes, a value
  -- cannot be converted or there is no admin key: the service throws, and the chain is as it was, which
  -- holds of the refusal too.
  pub post_offer_lem :
      (p : Platform) (b : Body D) (c : p.stellar.Chain)
      → ((m : String) × (post_offer v p b c ≡ (err (bad_request m), c)))
        ⊎ (OfferFields v b
            × (((o : OfferCall p (offer_request b)) × (post_offer v p b c
                    ≡ sent p (offer_request b) o c))
                ⊎ ((¬ OfferCall p (offer_request b))
                    × ((e : Exception) × (post_offer v p b c ≡ (err e, c))))))
  unfolding post_offer
  post_offer_lem p b c = elim (Bool-cases (is_valid v create_offer_dto b)) [
    | inr invalid ↦
        let (m, e) = laws.invalid_refused create_offer_dto b invalid in inl (m, lift-err _ _ c e)
    | inl valid ↦
        let (_, accepted) = and-eq-true _ _ valid in
        let passed =
          lift-ok _ (λ dto. create_offer p (offer_request dto)) c
            (laws.valid_passes create_offer_dto b valid) in
        inr (
          accepted-OfferFields b accepted,
          elim (create_offer-cases p (offer_request b) c) [
            | inl (o, called) ↦ inl (o, passed ∙ called)
            | inr (impossible, (e, thrown)) ↦ inr (impossible, (e, passed ∙ thrown))
          ],
        )
  ]
