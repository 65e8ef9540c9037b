-- ===== src/Frontend/Session/Tests.antt =====
-- Logins at concrete inputs: the API's server key is `S`, the extension's key `C`.
use carbonchain.Prelude.{String, ◌≡◌, refl, true, none, some, arith}
use carbonchain.Auth.{validate, admin_can_activate}
use carbonchain.Auth.Sample.{
  wallets, wallets_laws, push, service, handed_out, generate_challenge-handed_out,
}
use carbonchain.Prelude.Results.{err, forbidden, Result, ok}
use carbonchain.Frontend.{Outcome, fulfilled, rejected, other}
use carbonchain.Frontend.Wallet.{FreighterApi}
use carbonchain.Frontend.Session.{
  Api, Session, new_session, login, allowed, redirect, auth_guard, Payload, admin_guard,
}
use carbonchain.Frontend.Session.Sep10.{backend, login-generate_challenge}

abbrev freighter : FreighterApi
freighter = record {
  is_connected = fulfilled true;
  get_public_key = fulfilled "C";
  sign_transaction = λ xdr passphrase. fulfilled (push "C" xdr);
  get_network_details = rejected other;
}

-- An API without a connection, for a user who has logged in before.
abbrev offline : Api
offline = record { get_challenge = λ a. rejected other; get_token = λ x. rejected other }

abbrev before : Session
before = record new_session { token = some "old" }

abbrev decode : String → Outcome Payload
decode account = fulfilled (record { account = account; role = none })

signs :
    (xdr tx : String)
    → ◌≡◌ {A = Result String} (ok xdr) (ok tx)
    → fulfilled (push "C" xdr) ≡ fulfilled (push "C" tx)
signs xdr tx h = cc

abbrev after : Session
after =
    (login (some freighter) (backend (wallets "C") service (some "S") "nonce" 1000 1100)
      new_session).1

login-generate_challenge_example :
    (after.token ≡ some "C")
    × (auth_guard after ≡ allowed)
    × (admin_guard decode after ≡ redirect "/dashboard")
    × (admin_can_activate (some (validate (record { account = "C"; iat = 1100; exp = 4700 })))
        ≡ err (forbidden "Admin access required"))
login-generate_challenge_example =
    login-generate_challenge (wallets "C") (wallets_laws "C") service "S" "C" "nonce" 1000 1100 1100
      4700 handed_out "S" freighter decode new_session generate_challenge-handed_out refl
      (omega arith)
      (record { unlocked = refl; key = refl; signs = λ xdr passphrase tx h. signs xdr tx h })
      (λ account. refl)
