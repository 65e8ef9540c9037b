-- ===== src/Frontend/Session/Sep10.antt =====
-- The web application's login against the API's challenge and token.
use carbonchain.Prelude.{
  ℕ, ◌+◌, ◌≤◌, String, ◌≡◌, refl, true, Option, none, some, arith, is_empty, Bool-cases, inl, inr,
}
use carbonchain.Prelude.Results.{forbidden, ok, err}
use carbonchain.Auth.Sdk.{WalletSdk, WalletLaws}
use carbonchain.Auth.{AuthService, ChallengeResponse, generate_challenge, verify_and_issue_token}
use carbonchain.Auth.{validate, admin_can_activate}
use carbonchain.Auth.Verification.{admin_can_activate_lem}
use carbonchain.Auth.Challenge.{
  verify_and_issue_token-generate_challenge, generate_challenge-network_passphrase,
}
use carbonchain.Frontend.{over_http, Outcome, fulfilled}
use carbonchain.Frontend.Wallet.{FreighterApi}
use carbonchain.Frontend.Session.{
  Api, Session, login, allowed, redirect, auth_guard, is_authenticated, Payload, admin_guard,
}
use carbonchain.Frontend.Session.Login.{granted}

module _ (w : WalletSdk) where
  -- The API at the times of its two requests.
  abbrev pub backend : AuthService → Option w.Keypair → String → ℕ → ℕ → Api
  backend a admin nonce now later = record {
    get_challenge = λ account. over_http (generate_challenge w a admin account nonce now);
    get_token = λ xdr. over_http (verify_and_issue_token w a admin xdr later);
  }

  -- What the extension does with a transaction: it reads it for the network of the passphrase, adds the
  -- signature of its key and gives it back as XDR.
  pub record SignsWith (f : FreighterApi) (client : w.Keypair) : Type 0 where
    pub unlocked : f.is_connected ≡ fulfilled true
    pub key : f.get_public_key ≡ fulfilled (w.public_key client)
    pub signs :
        (xdr passphrase : String) (tx : w.Transaction)
        → w.parse xdr passphrase ≡ ok tx
        → f.sign_transaction xdr (some passphrase) ≡ fulfilled (w.to_xdr (w.sign client tx))

  -- What the decoding of a token relies on: its payload is what was signed, the account alone.
  abbrev pub Decodes : (String → Outcome Payload) → Type 0
  Decodes decode =
      (account : String)
      → decode (w.sign_token account) ≡ fulfilled (record { account = account; role = none })

  refused :
      (decode : String → Outcome Payload) (s : Session) (account : String)
      → auth_guard s ≡ allowed
      → s.token ≡ some (w.sign_token account)
      → decode (w.sign_token account) ≡ fulfilled (record { account = account; role = none })
      → admin_guard decode s ≡ redirect "/dashboard"
  unfolding admin_guard auth_guard
  refused decode s account passes has d = elim (Bool-cases (is_authenticated s)) [
    | inl e ↦ elim (Bool-cases (is_empty (w.sign_token account))) [
      | inl b ↦ rw (e, has, b) refl
      | inr b ↦ rw (e, has, b, d) refl
    ]
    | inr e ↦ absurd (ground arith)
  ]

  -- With an extension that signs with a key, the login at the API gets the token of the account of that
  -- key if the API made the challenge, and is asked for the token within 300 seconds. The guard of the
  -- routes then lets the user pass, but not the one of the admin page, whoever the user is, and the
  -- API's admin guard refuses the requests that come with the token.
  pub login-generate_challenge :
      (laws : WalletLaws w) (a : AuthService) (server client : w.Keypair) (nonce : String)
      (now later iat exp : ℕ) (r : ChallengeResponse) (tx : w.Transaction) (f : FreighterApi)
      (decode : String → Outcome Payload) (s : Session)
      → generate_challenge w a (some server) (w.public_key client) nonce now ≡ ok r
      → w.parse r.transaction a.network_passphrase ≡ ok tx
      → later ≤ now + 300
      → SignsWith f client
      → Decodes decode
      → let t = (login (some f) (backend a (some server) nonce now later) s).1 in
        (t.token ≡ some (w.sign_token (w.public_key client)))
        × (auth_guard t ≡ allowed)
        × (admin_guard decode t ≡ redirect "/dashboard")
        × (admin_can_activate
              (some (validate (record { account = w.public_key client; iat = iat; exp = exp })))
            ≡ err (forbidden "Admin access required"))
  unfolding admin_guard auth_guard
  login-generate_challenge laws a server client nonce now later iat exp r tx f decode s made read
        in_time signs decodes =
      let token =
        verify_and_issue_token-generate_challenge w laws a server client nonce now later r tx made
          read in_time in
      let network =
        generate_challenge-network_passphrase w laws a server (w.public_key client) nonce now r
          made in
      let (o, passes, has) =
        granted (some f) (backend a (some server) nonce now later) s _ (record {
          freighter = f;
          key = w.public_key client;
          challenge = r;
          xdr = w.to_xdr (w.sign client tx);
          is_installed = refl;
          is_unlocked = signs.unlocked;
          has_key = signs.key;
          has_challenge = rw made refl;
          has_signature = signs.signs r.transaction r.network_passphrase tx (rw network read);
          has_token = rw token refl;
        }) in
      (
        has,
        passes,
        refused decode _ _ passes has (decodes (w.public_key client)),
        (admin_can_activate_lem
            (validate (record { account = w.public_key client; iat = iat; exp = exp }))
            (record { account = w.public_key client; iat = iat; exp = exp })).1,
      )
