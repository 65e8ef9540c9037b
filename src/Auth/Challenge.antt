-- ===== src/Auth/Challenge.antt =====
-- The challenge and the token together.
use carbonchain.Prelude.{
  ℕ, ◌+◌, ◌≤◌, String, ◌≡◌, refl, sym, ap, ◌∙◌, Bool, true, false, ◌||◌, some, inl, inr, List, [],
  ◌∷◌, ◌++◌, arith, any, is_empty, Bool-cases,
}
use carbonchain.Prelude.Results.{ok, >>?-eq-ok}
use carbonchain.Keypair.{get_admin_keypair}
use carbonchain.Auth.Sdk.{Operation, WalletSdk, WalletLaws}
use carbonchain.Auth.{
  AuthService, ChallengeResponse, bad_account, challenge_parts, generate_challenge, caught,
  challenge_account, verify_and_issue_token,
}
use carbonchain.Auth.Verification.{IsSignedBy, verify_and_issue_token_iff}

module _ (w : WalletSdk) (laws : WalletLaws w) where
  open laws use {signature}

  -- What the server hands out, with the server's key.
  record Challenge (a : AuthService) (server : w.Keypair) (client : String) (now : ℕ)
      (tx : w.Transaction) : Type 0 where
    bounds : w.time_bounds tx ≡ some (record { min_time = 0; max_time = now + 300 })
    operations : w.operations tx ≡ record { op_type = "manageData"; source = some client } ∷ []
    passphrase : w.network_passphrase tx ≡ a.network_passphrase
    signed : (p : w.Keypair) → w.public_key p ≡ w.public_key server → IsSignedBy w p tx
    nonempty : is_empty client ≡ false
    valid : w.is_valid_public_key client ≡ true

  good_account :
      (client : String)
      → bad_account w client ≡ false
      → (is_empty client ≡ false) × (w.is_valid_public_key client ≡ true)
  good_account client h = (ground arith, ground arith)

  any-append :
      {A : Type 0} (q : A → Bool) (xs : List A) (x : A) → any q (xs ++ x ∷ []) ≡ (any q xs || q x)
  any-append q [] x = ground arith
  any-append q (y ∷ ys) x = ground (arith, any-append q ys x)

  -- Who has signed after a key signed.
  any_signed :
      (k p : w.Keypair) (tx : w.Transaction)
      → any (λ s. caught w (w.verify p (w.hash (w.sign k tx)) s)) (w.signatures (w.sign k tx)) ≡ (
          any (λ s. caught w (w.verify p (w.hash tx) s)) (w.signatures tx)
          || caught w (w.verify p (w.hash tx) (signature k (w.hash tx))))
  any_signed k p tx =
      rw (laws.sign-hash k tx, laws.sign-signatures k tx)
        (any-append (λ s. caught w (w.verify p (w.hash tx) s)) (w.signatures tx)
          (signature k (w.hash tx)))

  sign-IsSignedBy :
      (k p : w.Keypair) (tx : w.Transaction)
      → w.public_key p ≡ w.public_key k
      → IsSignedBy w p (w.sign k tx)
  sign-IsSignedBy k p tx h =
      any_signed k p tx ∙ ground (arith, laws.verify-signature k p (w.hash tx) h)

  sign_keeps :
      (k p : w.Keypair) (tx : w.Transaction) → IsSignedBy w p tx → IsSignedBy w p (w.sign k tx)
  sign_keeps k p tx h = any_signed k p tx ∙ rw h refl

  challenge :
      (a : AuthService) (server : w.Keypair) (client nonce : String) (now : ℕ)
      (r : ChallengeResponse)
      → generate_challenge w a (some server) client nonce now ≡ ok r
      → (tx : w.Transaction) × (r.transaction ≡ w.to_xdr tx) × Challenge a server client now tx
  unfolding generate_challenge get_admin_keypair
  challenge a server client nonce now r h = elim (Bool-cases (bad_account w client)) [
    | inl e ↦ ground arith
    | inr e ↦
        let parts = challenge_parts w a (w.public_key server) client nonce in
        let (tx, built, g) = >>?-eq-ok (w.build_challenge parts now) _ (rw e at h) in
        let (nonempty, valid) = good_account client e in
        (
          w.sign server tx,
          ground arith,
          record {
            bounds = laws.sign-time_bounds server tx ∙ laws.build-time_bounds parts now tx built;
            operations = laws.sign-operations server tx ∙ laws.build-operations parts now tx built;
            passphrase =
                laws.sign-network_passphrase server tx
                ∙ laws.build-network_passphrase parts now tx built;
            signed = λ p same. sign-IsSignedBy server p tx same;
            nonempty = nonempty;
            valid = valid;
          },
        )
  ]

  first_operation :
      (client : String) (ops : List Operation)
      → is_empty client ≡ false
      → ops ≡ record { op_type = "manageData"; source = some client } ∷ []
      → challenge_account w ops ≡ some client
  unfolding challenge_account
  first_operation client ops h e = rw (e, h) refl

  sign-Challenge :
      (a : AuthService) (server k : w.Keypair) (client : String) (now : ℕ) (tx : w.Transaction)
      → Challenge a server client now tx
      → Challenge a server client now (w.sign k tx)
  sign-Challenge a server k client now tx c = record {
    bounds = laws.sign-time_bounds k tx ∙ c.bounds;
    operations = laws.sign-operations k tx ∙ c.operations;
    passphrase = laws.sign-network_passphrase k tx ∙ c.passphrase;
    signed = λ p same. sign_keeps k p tx (c.signed p same);
    nonempty = c.nonempty;
    valid = c.valid;
  }

  answered :
      (a : AuthService) (server p : w.Keypair) (client : String) (now later : ℕ)
      (tx : w.Transaction)
      → Challenge a server client now tx
      → w.from_public_key client ≡ ok p
      → IsSignedBy w p tx
      → later ≤ now + 300
      → verify_and_issue_token w a (some server) (w.to_xdr tx) later
        ≡ ok (record { access_token = w.sign_token client })
  answered a server p client now later tx c from signed in_time =
      (verify_and_issue_token_iff w a (some server) (w.to_xdr tx) later _).1 (
        client,
        record {
          tx = tx;
          server = server;
          client = p;
          bounds = record { min_time = 0; max_time = now + 300 };
          is_parsed = ap (w.parse (w.to_xdr tx)) (sym c.passphrase) ∙ laws.parse-to_xdr tx;
          is_bounded = c.bounds;
          not_early = omega arith;
          not_late = in_time;
          is_source = first_operation client _ c.nonempty c.operations;
          is_valid = c.valid;
          is_server = refl;
          is_client = from;
          server_signed = c.signed server refl;
          client_signed = signed;
        },
        refl,
      )

  read_back :
      (a : AuthService) (tx t : w.Transaction) (xdr : String)
      → w.parse xdr a.network_passphrase ≡ ok tx
      → xdr ≡ w.to_xdr t
      → w.network_passphrase t ≡ a.network_passphrase
      → tx ≡ t
  read_back a tx t xdr read x passphrase =
      let e : w.parse xdr a.network_passphrase ≡ ok t =
        rw x (ap (w.parse (w.to_xdr t)) (sym passphrase) ∙ laws.parse-to_xdr t) in
      cc

  pub generate_challenge-network_passphrase :
      (a : AuthService) (server : w.Keypair) (client nonce : String) (now : ℕ)
      (r : ChallengeResponse)
      → generate_challenge w a (some server) client nonce now ≡ ok r
      → r.network_passphrase ≡ a.network_passphrase
  unfolding generate_challenge get_admin_keypair
  generate_challenge-network_passphrase a server client nonce now r h =
      elim (Bool-cases (bad_account w client)) [
        | inl e ↦ ground arith
        | inr e ↦
            let parts = challenge_parts w a (w.public_key server) client nonce in
            let (tx, built, g) = >>?-eq-ok (w.build_challenge parts now) _ (rw e at h) in
            ground arith
      ]

  -- The challenge for an account, signed by the key of that account, gets a token for it until 300
  -- seconds after it was made.
  pub verify_and_issue_token-generate_challenge :
      (a : AuthService) (server client : w.Keypair) (nonce : String) (now later : ℕ)
      (r : ChallengeResponse) (tx : w.Transaction)
      → generate_challenge w a (some server) (w.public_key client) nonce now ≡ ok r
      → w.parse r.transaction a.network_passphrase ≡ ok tx
      → later ≤ now + 300
      → verify_and_issue_token w a (some server) (w.to_xdr (w.sign client tx)) later
        ≡ ok (record { access_token = w.sign_token (w.public_key client) })
  verify_and_issue_token-generate_challenge a server client nonce now later r tx made read in_time =
      let (t, x, c) = challenge a server (w.public_key client) nonce now r made in
      let (p, (from, key)) = laws.from_public_key-public_key client in
      let same : tx ≡ t = read_back a tx t r.transaction read x c.passphrase in
      rw same (
        answered a server p (w.public_key client) now later (w.sign client t)
          (sign-Challenge a server client (w.public_key client) now t c) from
          (sign-IsSignedBy client p t key) in_time)

  -- The challenge for the server's own account gets a token for that account as it is handed out: the
  -- server's signature passes for the client's, and nobody has signed it in answer.
  pub verify_and_issue_token-own_account :
      (a : AuthService) (server : w.Keypair) (nonce : String) (now later : ℕ)
      (r : ChallengeResponse)
      → generate_challenge w a (some server) (w.public_key server) nonce now ≡ ok r
      → later ≤ now + 300
      → verify_and_issue_token w a (some server) r.transaction later
        ≡ ok (record { access_token = w.sign_token (w.public_key server) })
  verify_and_issue_token-own_account a server nonce now later r made in_time =
      let (t, x, c) = challenge a server (w.public_key server) nonce now r made in
      let (p, (from, key)) = laws.from_public_key-public_key server in
      rw x (answered a server p (w.public_key server) now later t c from (c.signed p key) in_time)
