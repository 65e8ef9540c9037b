-- ===== src/Frontend/Marketplace.antt =====
-- frontend/src/app/marketplace: the list of offers (marketplace-list.component.ts) and the page of the
-- marketplace (marketplace.component.ts) with the button that connects the wallet
-- (core/components/connect-wallet.component.ts). Formats of amounts and texts in other languages are left.
pub mod Listings
pub mod Sellers
pub mod Button
mod Tests
use carbonchain.Prelude.{
  String, Bool, true, false, Option, none, some, List, [], ◌∷◌, is_empty, if◌then◌else◌,
}
use carbonchain.Shared.{Offer}
use carbonchain.Frontend.{
  Outcome, fulfilled, rejected, message_of, LoadingState, idle, loading, loaded, error,
}
use carbonchain.Frontend.Wallet.{FreighterApi}
use carbonchain.Frontend.Session.{
  Api, AuthState, authenticating, Session, new_session, is_authenticated, login, logout,
}
use carbonchain.Frontend.Store.Offers.{
  MarketplaceStore, active_offers, begin_load, end_load_offers, offers_by_seller,
}

-- The signals of the list.
pub record MarketplaceList : Type 0 where
  pub offers : List Offer
  pub is_loading : Bool
  pub error : Option String

abbrev pub new_list : MarketplaceList
new_list = record { offers = []; is_loading = false; error = none }

abbrev pub begin_listings : MarketplaceList → MarketplaceList
begin_listings l = record l { is_loading = true; error = none }

-- `load` after its await, the `finally` included.
unfoldable pub end_listings : Outcome (List Offer) → MarketplaceList → MarketplaceList
end_listings (fulfilled offers) l = record l { offers = offers; is_loading = false }
end_listings (rejected e) l = record l {
  error = some (message_of "Failed to load listings." e);
  is_loading = false;
}

unfoldable pub load : Outcome (List Offer) → MarketplaceList → MarketplaceList
load answer l = end_listings answer (begin_listings l)

-- What a template shows below its title.
pub data Shown : Type 0 where
  failure : String → Shown
  waiting no_listings : Shown
  table : List Offer → Shown

abbrev pub rows : List Offer → Shown
rows [] = no_listings
rows (o ∷ os) = table (o ∷ os)

abbrev pub unless_failed : Option String → Shown → Shown
unless_failed none otherwise = otherwise
unless_failed (some e) otherwise = if is_empty e then otherwise else failure e

-- The error comes first, also while the list is loaded.
unfoldable pub shown_list : MarketplaceList → Shown
shown_list l = unless_failed l.error (if l.is_loading then waiting else rows l.offers)

-- What the button for the wallet looks like: the key with a button to disconnect, a link to install the
-- extension, or a button to connect that can be clicked or not.
pub data WalletButton : Type 0 where
  disconnect : Option String → WalletButton
  install : WalletButton
  connect : Bool → WalletButton

abbrev pub is_idle : AuthState → Bool
is_idle authenticating = false
is_idle _ = true

abbrev pub connect_or_install : Bool → Option FreighterApi → Bool → WalletButton
connect_or_install false none enabled = install
connect_or_install _ _ enabled = connect enabled

unfoldable pub wallet_button : Bool → Option FreighterApi → Session → WalletButton
wallet_button compact ext s =
    if is_authenticated s
    then disconnect s.wallet.public_key
    else connect_or_install compact ext (is_idle s.auth_state)

-- The services that the page of the marketplace injects.
pub record Visit : Type 0 where
  pub session : Session
  pub store : MarketplaceStore

abbrev pub new_visit : Visit
new_visit = record {
  session = new_session;
  store = record { offers = []; state = idle; error_message = none };
}

-- `login` of the button: an error stays in the session alone.
unfoldable pub connect_wallet : Option FreighterApi → Api → Visit → Visit
connect_wallet ext api v = record v { session = (login ext api v.session).1 }

unfoldable pub disconnect_wallet : Visit → Visit
disconnect_wallet v = record v { session = logout v.session }

-- What the API answers; `to_number` is `Number`.
pub record OfferAnswers : Type 1 where
  pub Number : Type 0
  pub to_number : String → Number
  pub get_offers_by_seller : String → Outcome (List String)
  pub get_offer : Number → Outcome Offer

abbrev pub seller_offers : OfferAnswers → String → Outcome (List Offer)
seller_offers a key = offers_by_seller a.to_number (a.get_offers_by_seller key) a.get_offer

abbrev refresh_store : OfferAnswers → Option String → MarketplaceStore → MarketplaceStore
refresh_store a none s = s
refresh_store a (some key) s =
    if is_empty key then s else end_load_offers (seller_offers a key) (begin_load s)

unfoldable pub refresh : OfferAnswers → Visit → Visit
refresh a v = record v { store = refresh_store a v.session.wallet.public_key v.store }

abbrev is_loading_state : LoadingState → Bool
is_loading_state loading = true
is_loading_state _ = false

-- `isLoading` of the store comes first, then its error.
unfoldable pub shown_store : MarketplaceStore → Shown
shown_store s =
    if is_loading_state s.state
    then waiting
    else unless_failed s.error_message (rows (active_offers s))

-- The page: the prompt to connect a wallet, or the listings with the key that the toolbar names.
pub data MarketplacePage : Type 0 where
  wallet_prompt : MarketplacePage
  listings_for : Option String → Shown → MarketplacePage

unfoldable pub page : Visit → MarketplacePage
page v =
    if is_authenticated v.session
    then listings_for v.session.wallet.public_key (shown_store v.store)
    else wallet_prompt
