-- ===== src/Marketplace/Amounts.antt =====
-- Which offers are sent to the contract, and with what arguments.
use carbonchain.Prelude.{String, ◌≡◌, ◌∙◌, refl, ◌⊎◌, inl, inr, Option, none, some, List, [], ◌∷◌}
use carbonchain.Prelude.Int.{ℤ}
use carbonchain.Prelude.BigInt.{big_int}
use carbonchain.Prelude.Results.{
  Result, ok, err, or_throw, Exception, Result-cases, ◌>>?◌, >>?-eq-ok, lift-err, lift-ok,
  and_then-lift,
}
use carbonchain.External.{text, bytes, integer}
use carbonchain.Keypair.{get_admin_keypair}
use carbonchain.Credits.Listing.{parse_big_int}
use carbonchain.Marketplace.{CreateOfferDto, Platform, offer_args, offer_id_of, create_offer}

or_throw-ok : {A : Type 0} (o : Option A) (e : Exception) {a : A} → or_throw o e ≡ ok a → o ≡ some a
or_throw-ok none e h = cc
or_throw-ok (some x) e h = cc

parse_big_int-ok : (s : String) {n : ℤ} → parse_big_int s ≡ ok n → big_int s ≡ some n
unfolding parse_big_int
parse_big_int-ok s h = or_throw-ok (big_int s) _ h

module _ (p : Platform) (dto : CreateOfferDto) where
  open p use {sdk}

  -- The arguments of the contract: price and tonnes are whole numbers, every value can be converted, and
  -- the admin key is loaded.
  pub record OfferCall : Type 0 where
    pub price : ℤ
    pub tonnes : ℤ
    pub seller_arg : sdk.ScVal
    pub credit_arg : sdk.ScVal
    pub price_arg : sdk.ScVal
    pub tonnes_arg : sdk.ScVal
    pub signer : sdk.Keypair
    pub is_price : big_int dto.price_xlm ≡ some price
    pub is_tonnes : big_int dto.tonnes ≡ some tonnes
    pub is_seller_arg : sdk.native_to_sc_val (text dto.seller_public_key) "address" ≡ ok seller_arg
    pub is_credit_arg :
        sdk.native_to_sc_val (bytes (sdk.from_hex dto.credit_id)) "bytes" ≡ ok credit_arg
    pub is_price_arg : sdk.native_to_sc_val (integer price) "i128" ≡ ok price_arg
    pub is_tonnes_arg : sdk.native_to_sc_val (integer tonnes) "i128" ≡ ok tonnes_arg
    pub is_signer : get_admin_keypair p.admin ≡ ok signer

  abbrev pub args_of : OfferCall → List sdk.ScVal
  args_of o = o.seller_arg ∷ o.credit_arg ∷ o.price_arg ∷ o.tonnes_arg ∷ []

  -- The answer of the contract, of which the id of the offer is read.
  abbrev pub sent : OfferCall → p.stellar.Chain → Result String × p.stellar.Chain
  sent o c =
      let (answer, after) =
        p.stellar.invoke_contract p.contract_id "create_offer" (args_of o) o.signer c in
      (answer >>? offer_id_of p, after)

  offer_args-OfferCall : (o : OfferCall) → offer_args p dto ≡ ok (args_of o)
  unfolding offer_args parse_big_int
  offer_args-OfferCall o =
      rw
        (o.is_seller_arg, o.is_credit_arg, o.is_price, o.is_price_arg, o.is_tonnes, o.is_tonnes_arg)
        refl

  OfferCall-offer_args :
      (args : List sdk.ScVal) (signer : sdk.Keypair)
      → offer_args p dto ≡ ok args
      → get_admin_keypair p.admin ≡ ok signer
      → OfferCall
  unfolding offer_args
  OfferCall-offer_args args signer made key =
      let (a1, e1, h1) = >>?-eq-ok _ _ made in
      let (a2, e2, h2) = >>?-eq-ok _ _ h1 in
      let (n, e3, h3) = >>?-eq-ok _ _ h2 in
      let (a3, e4, h4) = >>?-eq-ok _ _ h3 in
      let (m, e5, h5) = >>?-eq-ok _ _ h4 in
      let (a4, e6, _) = >>?-eq-ok _ _ h5 in
      record {
        price = n;
        tonnes = m;
        seller_arg = a1;
        credit_arg = a2;
        price_arg = a3;
        tonnes_arg = a4;
        signer = signer;
        is_price = parse_big_int-ok dto.price_xlm e3;
        is_tonnes = parse_big_int-ok dto.tonnes e5;
        is_seller_arg = e1;
        is_credit_arg = e2;
        is_price_arg = e4;
        is_tonnes_arg = e6;
        is_signer = key;
      }

  create_offer-sent : (o : OfferCall) (c : p.stellar.Chain) → create_offer p dto c ≡ sent o c
  unfolding create_offer
  create_offer-sent o c =
      rw (offer_args-OfferCall o, o.is_signer)
        (and_then-lift
          (p.stellar.invoke_contract p.contract_id "create_offer" (args_of o) o.signer c)
          (offer_id_of p))

  create_offer-no_args :
      (c : p.stellar.Chain) (e : Exception)
      → offer_args p dto ≡ err e
      → create_offer p dto c ≡ (err e, c)
  unfolding create_offer
  create_offer-no_args c e h = lift-err (offer_args p dto) _ c h

  create_offer-no_key :
      (args : List sdk.ScVal) (c : p.stellar.Chain) (e : Exception)
      → offer_args p dto ≡ ok args
      → get_admin_keypair p.admin ≡ err e
      → create_offer p dto c ≡ (err e, c)
  unfolding create_offer
  create_offer-no_key args c e h k =
      lift-ok (offer_args p dto) _ c h ∙ lift-err (get_admin_keypair p.admin) _ c k

  -- An offer is sent to the contract, or the service throws without a call of the contract.
  pub create_offer-cases :
      (c : p.stellar.Chain)
      → ((o : OfferCall) × (create_offer p dto c ≡ sent o c))
        ⊎ ((¬ OfferCall) × ((e : Exception) × (create_offer p dto c ≡ (err e, c))))
  create_offer-cases c = elim (Result-cases (offer_args p dto)) [
    | inr (e, h) ↦
        inr (λ o. let made = offer_args-OfferCall o in cc, (e, create_offer-no_args c e h))
    | inl (args, h) ↦ elim (Result-cases (get_admin_keypair p.admin)) [
      | inr (e, k) ↦ inr (λ o. let key = o.is_signer in cc, (e, create_offer-no_key args c e h k))
      | inl (signer, k) ↦
          let o = OfferCall-offer_args args signer h k in inl (o, create_offer-sent o c)
    ]
  ]
