-- ===== src/Frontend/Marketplace/Tests.antt =====
-- A visit of the marketplace: the seller `GA` has an open and a sold offer, and `GB` logs in afterwards.
use carbonchain.Prelude.{
  none, String, ◌≡◌, refl, ◌⊎◌, true, false, some, [], ◌∷◌, ◌===◌, if◌then◌else◌,
}
use carbonchain.Shared.{Offer, open_offer, filled}
use carbonchain.Routes.{mounted}
use carbonchain.Routes.Requests.{get_listings, request_of, dev_proxy, nginx}
use carbonchain.Routes.Sample.{router, router_laws}
use carbonchain.Frontend.{fulfilled, rejected, other}
use carbonchain.Frontend.Wallet.{FreighterApi}
use carbonchain.Frontend.Session.{Api, new_session, authenticated, is_authenticated}
use carbonchain.Frontend.Session.Login.{Granted}
use carbonchain.Frontend.Store.Offers.{offers_by_seller}
use carbonchain.Frontend.Marketplace.{
  MarketplaceList, load, shown_list, failure, table, OfferAnswers, Visit, new_visit, connect_wallet,
  disconnect_wallet, refresh, page, listings_for, wallet_button, disconnect,
}
use carbonchain.Frontend.Marketplace.Listings.{served, load-dispatch}
use carbonchain.Frontend.Marketplace.Sellers.{page-connect_wallet}
use carbonchain.Frontend.Marketplace.Button.{CanRetry, wallet_button-connect_wallet}

abbrev offer : Offer
offer = record {
  id = "1";
  seller = "GA";
  credit_id = "0a";
  price_xlm = "70000000";
  tonnes_available = "1000000";
  status = open_offer;
  created_at = 0;
}

abbrev sold : Offer
sold = record offer { id = "2"; status = filled }

abbrev full : MarketplaceList
full = record { offers = offer ∷ []; is_loading = false; error = none }

abbrev answers : OfferAnswers
answers = record {
  Number = String;
  to_number = λ s. s;
  get_offers_by_seller = λ key. fulfilled (if key === "GA" then "1" ∷ "2" ∷ [] else []);
  get_offer = λ id. fulfilled (if id === "1" then offer else sold);
}

abbrev freighter : FreighterApi
freighter = record {
  is_connected = fulfilled true;
  get_public_key = fulfilled "GB";
  sign_transaction = λ xdr passphrase. fulfilled xdr;
  get_network_details = rejected other;
}

abbrev api : Api
api = record {
  get_challenge = λ account. fulfilled (record { transaction = account; network_passphrase = "T" });
  get_token = λ xdr. fulfilled (record { access_token = xdr });
}

abbrev granted : Granted (some freighter) api "GB"
granted = record {
  freighter = freighter;
  key = "GB";
  challenge = record { transaction = "GB"; network_passphrase = "T" };
  xdr = "GB";
  is_installed = refl;
  is_unlocked = refl;
  has_key = refl;
  has_challenge = refl;
  has_signature = refl;
  has_token = refl;
}

abbrev connected : Visit
connected = record new_visit {
  session = record new_session {
    auth_state = authenticated;
    wallet = record new_session.wallet { public_key = some "GA" };
  };
}

load-dispatch_example :
    let h = request_of get_listings in
    (shown_list (
        load
          (served
            (router.dispatch mounted h.method (router.url (dev_proxy h.path)))
            (fulfilled (offer ∷ [])))
          full)
      ≡ failure "Failed to load listings.")
    × (shown_list (
          load
            (served
              (router.dispatch mounted h.method (router.url (nginx h.path)))
              (fulfilled (offer ∷ [])))
            full)
        ≡ failure "Failed to load listings.")
load-dispatch_example = load-dispatch router router_laws full (fulfilled (offer ∷ []))

page-connect_wallet_example :
    (page (refresh answers connected) ≡ listings_for (some "GA") (table (offer ∷ [])))
    × (page (connect_wallet (some freighter) api (disconnect_wallet (refresh answers connected)))
        ≡ listings_for (some "GB") (table (offer ∷ [])))
unfolding is_authenticated offers_by_seller
page-connect_wallet_example =
    page-connect_wallet answers connected "GA" (offer ∷ sold ∷ []) (some freighter) api "GB" granted
      refl refl refl refl

wallet_button-connect_wallet_example :
    let b =
      wallet_button true (some freighter) (connect_wallet (some freighter) api new_visit).session in
    ((t : String) × (g : Granted (some freighter) api t) × (b ≡ disconnect (some g.key)))
    ⊎ (((t : String) → ¬ Granted (some freighter) api t) × CanRetry true (some freighter) b)
wallet_button-connect_wallet_example =
    wallet_button-connect_wallet true (some freighter) api new_visit
