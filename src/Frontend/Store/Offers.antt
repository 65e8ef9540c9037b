-- ===== src/Frontend/Store/Offers.antt =====
-- frontend/src/app/core/store/marketplace.store.ts: the store of offers.
use carbonchain.Prelude.{
  ℕ, String, ◌+++◌, ◌≡◌, Bool, true, false, Option, none, some, List, [], map, ◌===◌, find, filter,
  if◌then◌else◌,
}
use carbonchain.Prelude.Decimal.{decimal}
use carbonchain.Shared.{Offer, OfferStatus, open_offer}
use carbonchain.Frontend.{
  Outcome, fulfilled, rejected, message_of, LoadingState, idle, loading, loaded, error, put,
  find-put, promise_all, ◌and_then◌,
}

pub record MarketplaceStore : Type 0 where
  pub offers : List Offer
  pub state : LoadingState
  pub error_message : Option String

abbrev pub is_open : OfferStatus → Bool
is_open open_offer = true
is_open _ = false

unfoldable pub active_offers : MarketplaceStore → List Offer
active_offers s = filter (λ o. is_open o.status) s.offers

-- What both loads do before their first `await`.
unfoldable pub begin_load : MarketplaceStore → MarketplaceStore
begin_load s = record s { state = loading; error_message = none }

-- The code of `loadOffersBySeller` after its awaits, and its `catch`.
unfoldable pub end_load_offers : Outcome (List Offer) → MarketplaceStore → MarketplaceStore
end_load_offers (fulfilled offers) s = record s { offers = offers; state = loaded }
end_load_offers (rejected e) s = record s {
  error_message = some (message_of "Failed to load offers." e);
  state = error;
}

-- What `loadOffersBySeller` awaits: the ids, then the offers; `to_number` is `Number`.
unfoldable pub offers_by_seller :
    {Number : Type 0}
    → (String → Number)
    → Outcome (List String)
    → (Number → Outcome Offer)
    → Outcome (List Offer)
offers_by_seller to_number ids answer =
    ids and_then λ listed. promise_all (map (λ id. answer (to_number id)) listed)

-- The function that `loadOffer` gives to `update`.
pub merge_offer : ℕ → Offer → List Offer → List Offer
merge_offer id offer list = put (λ o. o.id) (decimal id) offer list

-- `loadOffer` after its await.
pub end_load_offer : ℕ → Outcome Offer → MarketplaceStore → MarketplaceStore
unfolding merge_offer
end_load_offer id (fulfilled offer) s = record s {
  offers = merge_offer id offer s.offers;
  state = loaded;
}
end_load_offer id (rejected e) s = record s {
  error_message = some (message_of ("Failed to load offer " +++ (decimal id +++ ".")) e);
  state = error;
}

pub reset : MarketplaceStore → MarketplaceStore
reset s = record s { offers = []; state = idle; error_message = none }

pub find_offer : String → List Offer → Option Offer
find_offer k os = find (λ o. o.id === k) os

-- An offer that was loaded is found under its id, and the other offers stay as they were.
pub find-end_load_offer :
    (k : String) (id : ℕ) (o : Offer) (s : MarketplaceStore)
    → o.id ≡ decimal id
    → find_offer k (end_load_offer id (fulfilled o) s).offers
      ≡ (if decimal id === k then some o else find_offer k s.offers)
unfolding find_offer end_load_offer merge_offer
find-end_load_offer k id o s h = find-put (λ x. x.id) k (decimal id) o s.offers h
