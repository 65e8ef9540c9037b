-- ===== src/Marketplace.antt =====
-- api/src/marketplace/marketplace.service.ts: offers, which are kept by the contract alone.
pub mod Listings
pub mod Amounts
mod Tests
use carbonchain.Prelude.{
  ℕ, String, ◌+++◌, Bool, true, false, Option, none, some, List, [], ◌∷◌, map, if◌then◌else◌,
}
use carbonchain.Prelude.Decimal.{decimal}
use carbonchain.Prelude.Results.{
  Result, ok, err, not_found, Io, ◌>>=◌, pure, lift, catch, ◌>>?◌, or_throw,
}
use carbonchain.Shared.{Offer, OfferStatus, open_offer, cancelled}
use carbonchain.External.{Native, text, number, integer, bytes, boolean, Sdk, Stellar}
use carbonchain.Keypair.{get_admin_keypair}
use carbonchain.Credits.Listing.{parse_big_int}

pub record CreateOfferDto : Type 0 where
  pub seller_public_key : String
  pub credit_id : String
  pub price_xlm : String
  pub tonnes : String

pub record Platform : Type 1 where
  pub sdk : Sdk
  pub stellar : Stellar sdk
  pub admin : Option sdk.Keypair
  pub contract_id : String
  pub native_token_id : String

module _ (p : Platform) where
  open p use {sdk, stellar, contract_id, native_token_id}

  abbrev pub offer_status : Bool → OfferStatus
  offer_status true = open_offer
  offer_status false = cancelled

  pub map_offer : ℕ → sdk.Any → Result Offer
  map_offer id n = sdk.field "seller" n >>? λ seller. sdk.field "credit_id" n >>? λ credit_id.
      sdk.to_hex credit_id >>? λ credit_hex. sdk.field "price_xlm" n >>? λ price_xlm.
      sdk.field "tonnes" n >>? λ tonnes. sdk.field "created_at" n >>? λ created_at.
      sdk.field "active" n >>? λ active. ok (record {
        id = decimal id;
        seller = sdk.to_string seller;
        credit_id = credit_hex;
        price_xlm = sdk.to_string price_xlm;
        tonnes_available = sdk.to_string tonnes;
        created_at = sdk.to_number created_at;
        status = offer_status (sdk.to_boolean active);
      })

  pub offer_args : CreateOfferDto → Result (List sdk.ScVal)
  offer_args dto = sdk.native_to_sc_val (text dto.seller_public_key) "address" >>? λ a1.
      sdk.native_to_sc_val (bytes (sdk.from_hex dto.credit_id)) "bytes" >>? λ a2.
      parse_big_int dto.price_xlm >>? λ price. sdk.native_to_sc_val (integer price) "i128" >>? λ a3.
      parse_big_int dto.tonnes >>? λ tonnes.
      sdk.native_to_sc_val (integer tonnes) "i128" >>? λ a4. ok (a1 ∷ a2 ∷ a3 ∷ a4 ∷ [])

  abbrev pub offer_id_of : Option sdk.ScVal → Result String
  offer_id_of none = ok "unknown"
  offer_id_of (some rv) = sdk.sc_val_to_native rv >>? λ n. ok (sdk.to_string n)

  pub create_offer : CreateOfferDto → Io stellar.Chain String
  create_offer dto = do
    args ← lift (offer_args dto)
    signer ← lift (get_admin_keypair p.admin)
    rv ← stellar.invoke_contract contract_id "create_offer" args signer
    lift (offer_id_of rv)

  pub get_offer : ℕ → Io stellar.Chain Offer
  get_offer id = do
    arg ← lift (sdk.native_to_sc_val (number id) "u64")
    retval ← stellar.read_contract contract_id "get_offer" (arg ∷ [])
    value ← lift (or_throw retval (not_found ("Offer " +++ (decimal id +++ " not found"))))
    n ← lift (sdk.sc_val_to_native value)
    lift (map_offer id n)

  abbrev pub listed_offer : sdk.Any → Result Offer
  listed_offer item = sdk.field "id" item >>? λ id. map_offer (sdk.to_number id) item

  -- `raw.map(...)`: the first item that throws ends it.
  pub map_offers : List sdk.Any → Result (List Offer)
  map_offers [] = ok []
  map_offers (item ∷ items) = listed_offer item >>? λ o. map_offers items >>? λ os. ok (o ∷ os)

  abbrev pub offers_of : Option sdk.ScVal → Result (List Offer)
  offers_of none = ok []
  offers_of (some v) = sdk.sc_val_to_native v >>? λ raw. sdk.items raw >>? map_offers

  -- The body of the `try` of `getListings`, its first argument being built before it.
  abbrev pub read_listings : sdk.ScVal → Io stellar.Chain (List Offer)
  read_listings arg = do
    retval ← stellar.read_contract contract_id "get_active_offers" (arg ∷ [])
    lift (offers_of retval)

  pub get_listings : Io stellar.Chain (List Offer)
  get_listings = do
    arg ← lift (sdk.native_to_sc_val (boolean true) "bool")
    catch (read_listings arg) λ e. pure []

  abbrev pub texts_of : Option sdk.ScVal → Result (List String)
  texts_of none = ok []
  texts_of (some v) =
      sdk.sc_val_to_native v >>? λ raw. sdk.items raw >>? λ ids. ok (map sdk.to_string ids)

  pub get_offers_by_seller : String → Io stellar.Chain (List String)
  get_offers_by_seller seller = do
    arg ← lift (sdk.native_to_sc_val (text seller) "address")
    retval ← stellar.read_contract contract_id "get_offers_by_seller" (arg ∷ [])
    lift (texts_of retval)

  pub cancel_offer : String → ℕ → Io stellar.Chain (Unit {0})
  cancel_offer seller id = do
    a1 ← lift (sdk.native_to_sc_val (text seller) "address")
    a2 ← lift (sdk.native_to_sc_val (number id) "u64")
    signer ← lift (get_admin_keypair p.admin)
    _ ← stellar.invoke_contract contract_id "cancel_offer" (a1 ∷ a2 ∷ []) signer
    pure tt

  pub buy_offer : String → ℕ → Io stellar.Chain (Unit {0})
  buy_offer buyer id = do
    a1 ← lift (sdk.native_to_sc_val (text buyer) "address")
    a2 ← lift (sdk.native_to_sc_val (number id) "u64")
    a3 ← lift (sdk.native_to_sc_val (text native_token_id) "address")
    signer ← lift (get_admin_keypair p.admin)
    _ ← stellar.invoke_contract contract_id "buy_offer" (a1 ∷ a2 ∷ a3 ∷ []) signer
    pure tt
