-- ===== src/Frontend/Wallet.antt =====
-- frontend/src/app/core/services/stellar-wallet.service.ts. What the Freighter extension answers to each
-- of its calls is a parameter, `none` where it is not installed.
use carbonchain.Prelude.{String, Bool, true, false, Option, none, some}
use carbonchain.Frontend.{Outcome, fulfilled, rejected, an_error, Rejection, message_of}

pub record NetworkDetails : Type 0 where
  pub network : String
  pub network_passphrase : String

pub record FreighterApi : Type 0 where
  pub is_connected : Outcome Bool
  pub get_public_key : Outcome String
  pub sign_transaction : String → Option String → Outcome String
  pub get_network_details : Outcome NetworkDetails

pub data WalletState : Type 0 where
  disconnected connecting connected failed : WalletState

-- The signals of the service.
pub record StellarWallet : Type 0 where
  pub public_key : Option String
  pub state : WalletState
  pub error_message : Option String

abbrev pub new_wallet : StellarWallet
new_wallet = record { public_key = none; state = disconnected; error_message = none }

abbrev pub is_connected_state : WalletState → Bool
is_connected_state connected = true
is_connected_state _ = false

unfoldable pub is_connected : StellarWallet → Bool
is_connected w = is_connected_state w.state

abbrev pub not_installed : String
not_installed = "Freighter wallet extension is not installed."

-- The `catch` of `connect`.
abbrev pub connect_failed : Rejection → StellarWallet → Outcome String × StellarWallet
connect_failed e w = (
  rejected e,
  record w {
    error_message = some (message_of "Failed to connect to Freighter." e);
    state = failed;
  },
)

abbrev pub read_public_key : Outcome String → StellarWallet → Outcome String × StellarWallet
read_public_key (fulfilled key) w =
    (fulfilled key, record w { public_key = some key; state = connected })
read_public_key (rejected e) w = connect_failed e w

-- The body of the `try` of `connect`.
abbrev pub connect_to : FreighterApi → Outcome Bool → StellarWallet → Outcome String × StellarWallet
connect_to api (fulfilled true) w = read_public_key api.get_public_key w
connect_to api (fulfilled false) w =
    connect_failed (an_error "Freighter is not connected. Please unlock your wallet.") w
connect_to api (rejected e) w = connect_failed e w

unfoldable pub connect : Option FreighterApi → StellarWallet → Outcome String × StellarWallet
connect none w = (
  rejected (an_error not_installed),
  record w { error_message = some not_installed; state = failed },
)
connect (some api) w =
    connect_to api api.is_connected (record w { state = connecting; error_message = none })

abbrev pub signed : Outcome String → StellarWallet → Outcome String × StellarWallet
signed (fulfilled xdr) w = (fulfilled xdr, w)
signed (rejected e) w =
    (rejected e, record w { error_message = some (message_of "Transaction signing failed." e) })

-- A wallet that is connected without the extension fails where `window.freighter` is read.
abbrev pub sign_with :
    Option FreighterApi → String → Option String → StellarWallet → Outcome String × StellarWallet
sign_with none xdr passphrase w =
    signed (rejected (an_error "Cannot read properties of undefined")) w
sign_with (some api) xdr passphrase w = signed (api.sign_transaction xdr passphrase) w

unfoldable pub sign_transaction :
    Option FreighterApi → String → Option String → StellarWallet → Outcome String × StellarWallet
unfolding is_connected
sign_transaction ext xdr passphrase w = elim (is_connected w) [
  | true ↦ sign_with ext xdr passphrase w
  | false ↦ (rejected (an_error "Wallet is not connected. Call connect() first."), w)
]

pub get_network_details : Option FreighterApi → Outcome NetworkDetails
get_network_details none = rejected (an_error not_installed)
get_network_details (some api) = api.get_network_details

pub disconnect : StellarWallet → StellarWallet
disconnect w = record { public_key = none; state = disconnected; error_message = none }
