-- ===== src/Frontend/Session.antt =====
-- frontend/src/app/core/services/auth.service.ts and the route guards of frontend/src/app/core/guards.
-- The API's two answers and the decoding of a token's payload are parameters.
pub mod Login
pub mod Sep10
mod Tests
use carbonchain.Prelude.{
  String, Bool, true, false, Option, none, some, List, [], ◌∷◌, ◌===◌, is_empty, if◌then◌else◌,
}
use carbonchain.Auth.{ChallengeResponse, TokenResponse}
use carbonchain.Frontend.{Outcome, fulfilled, rejected, Rejection, message_of}
use carbonchain.Frontend.Wallet.{
  FreighterApi, StellarWallet, new_wallet, connect, sign_transaction, disconnect,
}

-- `getChallenge` and `getToken` of the API service.
pub record Api : Type 0 where
  pub get_challenge : String → Outcome ChallengeResponse
  pub get_token : String → Outcome TokenResponse

pub data AuthState : Type 0 where
  unauthenticated authenticating authenticated failed : AuthState

pub record Session : Type 0 where
  pub token : Option String
  pub auth_state : AuthState
  pub auth_error : Option String
  pub wallet : StellarWallet

abbrev pub new_session : Session
new_session = record {
  token = none;
  auth_state = unauthenticated;
  auth_error = none;
  wallet = new_wallet;
}

abbrev pub is_authenticated_state : AuthState → Bool
is_authenticated_state authenticated = true
is_authenticated_state _ = false

unfoldable pub is_authenticated : Session → Bool
is_authenticated s = is_authenticated_state s.auth_state

-- The `catch` of `login`.
abbrev pub login_failed : Rejection → Session → Outcome (Unit {0}) × Session
login_failed e s = (
  rejected e,
  record s { auth_error = some (message_of "Authentication failed." e); auth_state = failed },
)

-- Step 4 of `login`.
abbrev pub exchange : Outcome TokenResponse → Session → Outcome (Unit {0}) × Session
exchange (fulfilled r) s =
    (fulfilled tt, record s { token = some r.access_token; auth_state = authenticated })
exchange (rejected e) s = login_failed e s

-- Step 3 and what follows it.
abbrev pub with_signed :
    Api → Outcome String × StellarWallet → Session → Outcome (Unit {0}) × Session
with_signed api (fulfilled xdr, w) s = exchange (api.get_token xdr) (record s { wallet = w })
with_signed api (rejected e, w) s = login_failed e (record s { wallet = w })

abbrev pub with_challenge :
    Option FreighterApi → Api → Outcome ChallengeResponse → Session → Outcome (Unit {0}) × Session
with_challenge ext api (fulfilled c) s =
    with_signed api (sign_transaction ext c.transaction (some c.network_passphrase) s.wallet) s
with_challenge ext api (rejected e) s = login_failed e s

abbrev pub with_key :
    Option FreighterApi
    → Api
    → Outcome String × StellarWallet
    → Session
    → Outcome (Unit {0}) × Session
with_key ext api (fulfilled key, w) s =
    with_challenge ext api (api.get_challenge key) (record s { wallet = w })
with_key ext api (rejected e, w) s = login_failed e (record s { wallet = w })

pub login : Option FreighterApi → Api → Session → Outcome (Unit {0}) × Session
login ext api s =
    with_key ext api (connect ext s.wallet)
      (record s { auth_state = authenticating; auth_error = none })

pub logout : Session → Session
logout s = record s {
  token = none;
  auth_state = unauthenticated;
  auth_error = none;
  wallet = disconnect s.wallet;
}

-- What a guard answers to the router.
pub data Access : Type 0 where
  allowed : Access
  redirect : String → Access

pub auth_guard : Session → Access
auth_guard s = if is_authenticated s then allowed else redirect "/connect-wallet"

-- The payload of a token, as far as the guard reads it.
pub record Payload : Type 0 where
  pub account : String
  pub role : Option String

abbrev pub has_role : Option String → Bool
has_role none = false
has_role (some r) = r === "admin"

-- A payload that cannot be decoded falls through to the redirect.
abbrev pub is_admin : Outcome Payload → Bool
is_admin (fulfilled p) = has_role p.role
is_admin (rejected e) = false

abbrev pub token_is_admin : (String → Outcome Payload) → Option String → Bool
token_is_admin decode none = false
token_is_admin decode (some t) = if is_empty t then false else is_admin (decode t)

-- `decode` is `JSON.parse(atob(token.split('.')[1]))`.
pub admin_guard : (String → Outcome Payload) → Session → Access
admin_guard decode s =
    if is_authenticated s
    then (if token_is_admin decode s.token then allowed else redirect "/dashboard")
    else redirect "/connect-wallet"
