-- ===== src/Marketplace/Listings.antt =====
-- What the listing of the offers can look like.
use carbonchain.Prelude.{◌≡◌, refl, ◌⊎◌, inl, inr, Option, some, List, [], ◌∷◌, ◌++◌, arith, true}
use carbonchain.Prelude.Results.{ok, err, Exception, Result-cases}
use carbonchain.Shared.{Offer}
use carbonchain.External.{boolean}
use carbonchain.Marketplace.{
  Platform, listed_offer, map_offers, offers_of, read_listings, get_listings,
}

module _ (p : Platform) where
  -- The listing fails only if its argument cannot be built. Otherwise it is what the contract's offers
  -- map to, or empty: where the contract cannot be read or one offer of many is malformed, the caller
  -- gets an empty listing and no error.
  pub get_listings_lem :
      (arg : p.sdk.ScVal) (s : p.stellar.Chain)
      → p.sdk.native_to_sc_val (boolean true) "bool" ≡ ok arg
      → ((os : List Offer) × ((read_listings p arg s).0 ≡ ok os) × ((get_listings p s).0 ≡ ok os))
        ⊎ ((e : Exception) × ((read_listings p arg s).0 ≡ err e) × ((get_listings p s).0 ≡ ok []))
  unfolding get_listings
  get_listings_lem arg s built = elim (Result-cases (read_listings p arg s).0) [
    | inl (os, e) ↦ inl (os, e, ground arith)
    | inr (x, e) ↦ inr (x, e, ground arith)
  ]

  map_offers-err :
      (xs ys : List p.sdk.Any) (item : p.sdk.Any) (e : Exception)
      → listed_offer p item ≡ err e
      → (x : Exception) × (map_offers p (xs ++ item ∷ ys) ≡ err x)
  unfolding map_offers
  map_offers-err [] ys item e h = (e, rw h refl)
  map_offers-err (o ∷ xs) ys item e h =
      let (x, rest) = map_offers-err xs ys item e h in
      elim (Result-cases (listed_offer p o)) [
        | inl (a, f) ↦ (x, rw (f, rest) refl)
        | inr (y, f) ↦ (y, rw f refl)
      ]

  read_listings-err :
      (arg : p.sdk.ScVal) (o : Option p.sdk.ScVal) (s : p.stellar.Chain) (x : Exception)
      → (p.stellar.read_contract p.contract_id "get_active_offers" (arg ∷ []) s).0 ≡ ok o
      → offers_of p o ≡ err x
      → (read_listings p arg s).0 ≡ err x
  read_listings-err arg o s x read failed = rw (read, failed) refl

  -- Where the contract answers with its active offers, one malformed offer, wherever it stands
  -- among them, hides all of them: the listing is empty.
  pub get_listings-malformed :
      (arg v : p.sdk.ScVal) (raw item : p.sdk.Any) (xs ys : List p.sdk.Any) (e : Exception)
      (s : p.stellar.Chain)
      → p.sdk.native_to_sc_val (boolean true) "bool" ≡ ok arg
      → (p.stellar.read_contract p.contract_id "get_active_offers" (arg ∷ []) s).0 ≡ ok (some v)
      → p.sdk.sc_val_to_native v ≡ ok raw
      → p.sdk.items raw ≡ ok (xs ++ item ∷ ys)
      → listed_offer p item ≡ err e
      → (get_listings p s).0 ≡ ok []
  get_listings-malformed arg v raw item xs ys e s built read native items bad =
      let (x, none_mapped) = map_offers-err xs ys item e bad in
      let failed : offers_of p (some v) ≡ err x = rw (native, items, none_mapped) refl in
      elim (get_listings_lem arg s built) [
        | inr (y, f, g) ↦ g
        | inl (os, f, g) ↦ let q = read_listings-err arg (some v) s x read failed in cc
      ]
