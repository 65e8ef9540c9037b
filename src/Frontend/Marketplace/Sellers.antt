-- ===== src/Frontend/Marketplace/Sellers.antt =====
-- Whose offers the page of the marketplace shows.
use carbonchain.Prelude.{String, ◌≡◌, refl, true, false, Option, some, List, filter, is_empty}
use carbonchain.Shared.{Offer}
use carbonchain.Frontend.{fulfilled}
use carbonchain.Frontend.Wallet.{FreighterApi}
use carbonchain.Frontend.Session.{Api, is_authenticated}
use carbonchain.Frontend.Session.Login.{Granted, login-public_key}
use carbonchain.Frontend.Store.Offers.{is_open, active_offers, begin_load, end_load_offers}
use carbonchain.Frontend.Marketplace.{
  OfferAnswers, seller_offers, Visit, connect_wallet, disconnect_wallet, refresh, page, Shown, rows,
  shown_store, listings_for,
}

shown-refresh :
    (a : OfferAnswers) (v : Visit) (key : String) (os : List Offer)
    → v.session.wallet.public_key ≡ some key
    → is_empty key ≡ false
    → seller_offers a key ≡ fulfilled os
    → shown_store (refresh a v).store ≡ rows (filter (λ o. is_open o.status) os)
unfolding refresh shown_store active_offers begin_load end_load_offers
shown-refresh a v key os connected some_key answered = rw (connected, some_key, answered) refl

page-entered :
    (w : Visit) (key : Option String) (sh : Shown)
    → is_authenticated w.session ≡ true
    → w.session.wallet.public_key ≡ key
    → shown_store w.store ≡ sh
    → page w ≡ listings_for key sh
unfolding page
page-entered w key sh entered connected shows = rw (entered, connected, shows) refl

-- A refresh by a user who is logged in, with a key that is not empty, shows the open offers of that
-- seller in the order in which the API lists them, when the API answers each of them. After a
-- disconnection and a login with any wallet that is granted, the page names the key of that wallet and
-- still shows the offers of the first.
pub page-connect_wallet :
    (a : OfferAnswers) (v : Visit) (key : String) (os : List Offer) (ext : Option FreighterApi)
    (api : Api) (t : String) (g : Granted ext api t)
    → is_authenticated v.session ≡ true
    → v.session.wallet.public_key ≡ some key
    → is_empty key ≡ false
    → seller_offers a key ≡ fulfilled os
    → (page (refresh a v) ≡ listings_for (some key) (rows (filter (λ o. is_open o.status) os)))
      × (page (connect_wallet ext api (disconnect_wallet (refresh a v)))
          ≡ listings_for (some g.key) (rows (filter (λ o. is_open o.status) os)))
unfolding connect_wallet disconnect_wallet refresh
page-connect_wallet a v key os ext api t g entered connected some_key answered =
    let shown = shown-refresh a v key os connected some_key answered in
    let (again, new_key) = login-public_key ext api (disconnect_wallet (refresh a v)).session t g in
    (
      page-entered (refresh a v) _ _ entered connected shown,
      page-entered (connect_wallet ext api (disconnect_wallet (refresh a v))) _ _ again new_key
          shown,
    )
