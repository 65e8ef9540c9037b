-- ===== src/Auth.antt =====
-- api/src/auth/auth.service.ts, auth/stellar-auth.strategy.ts and admin/admin.guard.ts: the SEP-10
-- challenge, the token, and who passes the admin guard. The SDK and the JWT signer are parameters;
-- times are natural numbers of seconds.
pub mod Sdk
pub mod Verification
pub mod Challenge
pub mod Sample
mod Tests
use carbonchain.Prelude.{
  ℕ, ◌+◌, String, ◌+++◌, Bool, true, false, ◌||◌, not, Option, none, some, List, [], ◌∷◌, ltb,
  ◌===◌, is_empty, find, if◌then◌else◌,
}
use carbonchain.Prelude.Results.{
  Result, ok, err, bad_request, unauthorized, forbidden, ◌>>?◌, or_throw,
}
use carbonchain.Keypair.{get_admin_keypair}
use carbonchain.Auth.Sdk.{Operation, TimeBounds, ChallengeParts, WalletSdk}

-- The fields of the service, by the configured STELLAR_NETWORK and HOME_DOMAIN.
pub record AuthService : Type 0 where
  pub network_passphrase : String
  pub server_home_domain : String

abbrev pub or_default : Option String → String → String
or_default none d = d
or_default (some s) d = s

pub record ChallengeResponse : Type 0 where
  pub transaction : String
  pub network_passphrase : String

pub record TokenResponse : Type 0 where
  pub access_token : String

module _ (w : WalletSdk) where
  unfoldable pub new_auth_service : Option String → Option String → AuthService
  new_auth_service network home_domain = record {
    network_passphrase =
        if or_default network "TESTNET" === "PUBLIC"
        then w.public_passphrase
        else w.testnet_passphrase;
    server_home_domain = or_default home_domain "localhost";
  }

  -- `!clientAccount || !StrKey.isValidEd25519PublicKey(clientAccount)`
  abbrev pub bad_account : String → Bool
  bad_account account = is_empty account || not (w.is_valid_public_key account)

  abbrev pub challenge_parts : AuthService → String → String → String → ChallengeParts
  challenge_parts a server client nonce = record {
    source_account = server;
    sequence = "-1";
    fee = "100";
    passphrase = a.network_passphrase;
    entry_name = a.server_home_domain +++ " auth";
    entry_value = nonce;
    entry_source = client;
    timeout = 300;
  }

  -- `nonce` is the random key in base64, `now` the time at which the builder reads the clock.
  pub generate_challenge :
      AuthService → Option w.Keypair → String → String → ℕ → Result ChallengeResponse
  generate_challenge a admin client nonce now =
      if bad_account client
      then err (bad_request "Invalid Stellar account address")
      else (get_admin_keypair admin >>? λ server.
          w.build_challenge (challenge_parts a (w.public_key server) client nonce) now >>? λ tx.
          ok (record {
            transaction = w.to_xdr (w.sign server tx);
            network_passphrase = a.network_passphrase;
          }))

  abbrev pub parsed_or_bad_request : Result w.Transaction → Result w.Transaction
  parsed_or_bad_request (ok tx) = ok tx
  parsed_or_bad_request (err e) = err (bad_request "Invalid transaction XDR")

  abbrev pub out_of_bounds : Option TimeBounds → ℕ → Bool
  out_of_bounds none now = true
  out_of_bounds (some b) now = ltb now b.min_time || ltb b.max_time now

  abbrev pub source_of : Option Operation → Option String
  source_of none = none
  source_of (some op) = op.source

  -- The source of the first manageData operation, unless it is missing or empty.
  pub challenge_account : List Operation → Option String
  challenge_account ops = elim (source_of (find (λ op. op.op_type === "manageData") ops)) [
    | none ↦ none
    | some s ↦ if is_empty s then none else some s
  ]

  abbrev pub caught : Result Bool → Bool
  caught (ok b) = b
  caught (err e) = false

  -- The `find` over the signatures, a `verify` that throws counting as `false`.
  pub signed_by : w.Keypair → w.Transaction → Bool
  signed_by k tx = elim (find (λ s. caught (w.verify k (w.hash tx) s)) (w.signatures tx)) [
    | none ↦ false
    | some s ↦ true
  ]

  abbrev pub require : Bool → String → Result (Unit {0})
  require b message = if b then ok tt else err (unauthorized message)

  abbrev pub require_account : Bool → Result (Unit {0})
  require_account b = if b then ok tt else err (bad_request "Invalid client account in challenge")

  pub verify_and_issue_token : AuthService → Option w.Keypair → String → ℕ → Result TokenResponse
  verify_and_issue_token a admin xdr now =
      parsed_or_bad_request (w.parse xdr a.network_passphrase) >>? λ tx.
      require (not (out_of_bounds (w.time_bounds tx) now))
        "Challenge transaction has expired or is not yet valid"
      >>? λ in_time.
          or_throw (challenge_account (w.operations tx))
            (bad_request "Challenge transaction missing manageData operation")
          >>? λ client. require_account (w.is_valid_public_key client) >>? λ valid.
              get_admin_keypair admin >>? λ server.
              require (signed_by server tx) "Server signature missing or invalid" >>? λ by_server.
              w.from_public_key client >>? λ client_keypair.
              require (signed_by client_keypair tx) "Client signature missing or invalid"
              >>? λ by_client. ok (record { access_token = w.sign_token client })

-- The payload of a verified JWT, and what the strategy attaches to the request.
pub record JwtPayload : Type 0 where
  pub account : String
  pub iat : ℕ
  pub exp : ℕ

pub record User : Type 0 where
  pub account : String
  pub role : Option String

pub validate : JwtPayload → User
validate payload = record { account = payload.account; role = none }

abbrev pub has_admin_role : Option String → Bool
has_admin_role none = false
has_admin_role (some r) = r === "admin"

-- `AdminGuard.canActivate` on the user of the request.
pub admin_can_activate : Option User → Result Bool
admin_can_activate none = err (forbidden "Admin access required")
admin_can_activate (some u) =
    if has_admin_role u.role then ok true else err (forbidden "Admin access required")
