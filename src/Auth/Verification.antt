-- ===== src/Auth/Verification.antt =====
-- When a token is issued, and who passes the admin guard.
use carbonchain.Prelude.{
  ℕ, ◌≤◌, ◌↔◌, sym, ap, ◌∙◌, ===_iff, String, ◌≡◌, refl, Bool, true, false, not, Option, none, some,
  List, [], ◌∷◌, arith, any, find, if◌then◌else◌,
}
use carbonchain.Prelude.Results.{Result, ok, err, Exception, forbidden, or_throw, >>?-eq-ok}
use carbonchain.Keypair.{get_admin_keypair}
use carbonchain.Auth.Sdk.{TimeBounds, WalletSdk}
use carbonchain.Auth.{
  AuthService, TokenResponse, parsed_or_bad_request, require, require_account, caught,
  out_of_bounds, challenge_account, signed_by, verify_and_issue_token, JwtPayload, User, validate,
  has_admin_role, admin_can_activate,
}

module _ (w : WalletSdk) where
  -- Some signature of the transaction is the key's.
  abbrev pub IsSignedBy : w.Keypair → w.Transaction → Type 0
  IsSignedBy k tx = any (λ s. caught w (w.verify k (w.hash tx) s)) (w.signatures tx) ≡ true

  find-any :
      {A : Type 0} (q : A → Bool) (xs : List A)
      → elim (find q xs) as (λ _. Bool) [ none ↦ false | some s ↦ true ] ≡ any q xs
  find-any q [] = refl
  find-any q (x ∷ xs) = ground (arith, find-any q xs)

  pub signed_by_lem :
      (k : w.Keypair) (tx : w.Transaction)
      → signed_by w k tx ≡ any (λ s. caught w (w.verify k (w.hash tx) s)) (w.signatures tx)
  unfolding signed_by
  signed_by_lem k tx = find-any (λ s. caught w (w.verify k (w.hash tx) s)) (w.signatures tx)

  -- What a transaction must be for the account to get a token at a time.
  pub record Accepted (a : AuthService) (admin : Option w.Keypair) (xdr : String) (now : ℕ)
      (account : String) : Type 0 where
    pub tx : w.Transaction
    pub server : w.Keypair
    pub client : w.Keypair
    pub bounds : TimeBounds
    pub is_parsed : w.parse xdr a.network_passphrase ≡ ok tx
    pub is_bounded : w.time_bounds tx ≡ some bounds
    pub not_early : bounds.min_time ≤ now
    pub not_late : now ≤ bounds.max_time
    pub is_source : challenge_account w (w.operations tx) ≡ some account
    pub is_valid : w.is_valid_public_key account ≡ true
    pub is_server : admin ≡ some server
    pub is_client : w.from_public_key account ≡ ok client
    pub server_signed : IsSignedBy server tx
    pub client_signed : IsSignedBy client tx

  parsed :
      (x : Result w.Transaction) (tx : w.Transaction)
      → parsed_or_bad_request w x ≡ ok tx
      → x ≡ ok tx
  parsed (ok t) tx h = h
  parsed (err e) tx h = cc

  required : (b : Bool) (m : String) (u : Unit {0}) → require w b m ≡ ok u → b ≡ true
  required true m u h = refl
  required false m u h = cc

  required_account : (b : Bool) (u : Unit {0}) → require_account w b ≡ ok u → b ≡ true
  required_account true u h = refl
  required_account false u h = cc

  found : (o : Option String) (m : Exception) (s : String) → or_throw o m ≡ ok s → o ≡ some s
  found none m s h = cc
  found (some t) m s h = cc

  loaded : (o : Option w.Keypair) (k : w.Keypair) → get_admin_keypair o ≡ ok k → o ≡ some k
  unfolding get_admin_keypair
  loaded none k h = cc
  loaded (some t) k h = cc

  within :
      (o : Option TimeBounds) (now : ℕ)
      → not (out_of_bounds w o now) ≡ true
      → (b : TimeBounds) × (o ≡ some b) × (b.min_time ≤ now) × (now ≤ b.max_time)
  within none now h = cc
  within (some b) now h = (b, refl, ground arith, ground arith)

  accepted :
      (a : AuthService) (admin : Option w.Keypair) (xdr : String) (now : ℕ) (r : TokenResponse)
      → verify_and_issue_token w a admin xdr now ≡ ok r
      → (account : String) × Accepted a admin xdr now account
        × (r ≡ record { access_token = w.sign_token account })
  unfolding verify_and_issue_token
  accepted a admin xdr now r h =
      let (tx, p, h1) = >>?-eq-ok _ _ h in
      let (u1, t, h2) = >>?-eq-ok _ _ h1 in
      let (account, o, h3) = >>?-eq-ok _ _ h2 in
      let (u2, v, h4) = >>?-eq-ok _ _ h3 in
      let (server, l, h5) = >>?-eq-ok _ _ h4 in
      let (u3, ss, h6) = >>?-eq-ok _ _ h5 in
      let (client, c, h7) = >>?-eq-ok _ _ h6 in
      let (u4, cs, h8) = >>?-eq-ok _ _ h7 in
      let (b, e, lo, hi) = within (w.time_bounds tx) now (required _ _ u1 t) in
      (
        account,
        record {
          tx = tx;
          server = server;
          client = client;
          bounds = b;
          is_parsed = parsed _ tx p;
          is_bounded = e;
          not_early = lo;
          not_late = hi;
          is_source = found _ _ account o;
          is_valid = required_account _ u2 v;
          is_server = loaded admin server l;
          is_client = c;
          server_signed = sym (signed_by_lem server tx) ∙ required _ _ u3 ss;
          client_signed = sym (signed_by_lem client tx) ∙ required _ _ u4 cs;
        },
        cc,
      )

  issued :
      (a : AuthService) (admin : Option w.Keypair) (xdr : String) (now : ℕ) (account : String)
      → Accepted a admin xdr now account
      → verify_and_issue_token w a admin xdr now
        ≡ ok (record { access_token = w.sign_token account })
  unfolding verify_and_issue_token get_admin_keypair
  issued a admin xdr now account h =
      let server = signed_by_lem h.server h.tx ∙ h.server_signed in
      let client = signed_by_lem h.client h.tx ∙ h.client_signed in
      let in_time : not (out_of_bounds w (some h.bounds) now) ≡ true =
        ground (arith, h.not_early, h.not_late) in
      rw
        (
          h.is_parsed, h.is_bounded, in_time, h.is_source, h.is_valid, h.is_server, server,
          h.is_client, client,
        )
        refl

  -- A token is issued exactly if the transaction can be read, the time is within its bounds, it carries
  -- a signature of the server's key and one of the key of the account that the token is for, and that
  -- account is valid and the source of its first manageData operation.
  pub verify_and_issue_token_iff :
      (a : AuthService) (admin : Option w.Keypair) (xdr : String) (now : ℕ) (r : TokenResponse)
      → (verify_and_issue_token w a admin xdr now ≡ ok r) ↔ (
          (account : String) × Accepted a admin xdr now account
          × (r ≡ record { access_token = w.sign_token account }))
  verify_and_issue_token_iff a admin xdr now r = (
    accepted a admin xdr now r,
    λ (account, h, e). issued a admin xdr now account h ∙ ap ok (sym e),
  )

admin_role :
    (o : Option String)
    → ((if has_admin_role o then ok true else err (forbidden "Admin access required")) ≡ ok true)
      ↔ (o ≡ some "admin")
admin_role none = (λ h. cc, λ h. cc)
admin_role (some r) = ground (arith, ===_iff r "admin")

-- The admin guard lets a request pass exactly if its user has the role `admin`. What the JWT strategy
-- attaches to a request has no role, so the guard refuses every user who comes with a token.
pub admin_can_activate_lem :
    (u : User) (payload : JwtPayload)
    → ((admin_can_activate (some u) ≡ ok true) ↔ (u.role ≡ some "admin"))
      × (admin_can_activate (some (validate payload)) ≡ err (forbidden "Admin access required"))
unfolding admin_can_activate validate
admin_can_activate_lem u payload = (admin_role u.role, refl)
