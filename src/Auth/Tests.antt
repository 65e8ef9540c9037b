-- ===== src/Auth/Tests.antt =====
-- The challenge and the token at concrete inputs.

use carbonchain.Prelude.{String, ◌≡◌, ◌↔◌, refl, some, arith}
use carbonchain.Prelude.Results.{ok, err, unauthorized}
use carbonchain.Auth.{
  TokenResponse, generate_challenge, verify_and_issue_token, User, validate, admin_can_activate,
  challenge_account, signed_by,
}
use carbonchain.Auth.Verification.{Accepted, verify_and_issue_token_iff}
use carbonchain.Auth.Challenge.{
  verify_and_issue_token-generate_challenge, verify_and_issue_token-own_account,
}
use carbonchain.Keypair.{get_admin_keypair}
use carbonchain.Auth.Sample.{wallets, wallets_laws, service, handed_out}

auth : Unit {0}
unfolding generate_challenge verify_and_issue_token get_admin_keypair challenge_account signed_by
    validate admin_can_activate
auth = tt

too_late :
    verify_and_issue_token (wallets "C") service (some "S") "SC" 1301
    ≡ err (unauthorized "Challenge transaction has expired or is not yet valid")
unfolding auth
too_late = refl

unsigned :
    verify_and_issue_token (wallets "C") service (some "S") "S" 1100
    ≡ err (unauthorized "Client signature missing or invalid")
unfolding auth
unsigned = refl

verify_and_issue_token_iff_example :
    (verify_and_issue_token (wallets "C") service (some "S") "SC" 1100
      ≡ ok (record { access_token = "C" }))
    ↔ ((account : String) × Accepted (wallets "C") service (some "S") "SC" 1100 account
        × ◌≡◌ {A = TokenResponse}
            (record { access_token = "C" })
            (record { access_token = account }))
verify_and_issue_token_iff_example =
    verify_and_issue_token_iff (wallets "C") service (some "S") "SC" 1100
      (record { access_token = "C" })

verify_and_issue_token-generate_challenge_example :
    verify_and_issue_token (wallets "C") service (some "S") "SC" 1100
    ≡ ok (record { access_token = "C" })
unfolding auth
verify_and_issue_token-generate_challenge_example =
    verify_and_issue_token-generate_challenge (wallets "C") (wallets_laws "C") service "S" "C"
      "nonce" 1000 1100 handed_out "S" refl refl (omega arith)

verify_and_issue_token-own_account_example :
    verify_and_issue_token (wallets "S") service (some "S") "S" 1100
    ≡ ok (record { access_token = "S" })
unfolding auth
verify_and_issue_token-own_account_example =
    verify_and_issue_token-own_account (wallets "S") (wallets_laws "S") service "S" "nonce" 1000
      1100 handed_out refl (omega arith)

abbrev admin_user : User
admin_user = record { account = "GADMIN"; role = some "admin" }
