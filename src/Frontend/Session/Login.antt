-- ===== src/Frontend/Session/Login.antt =====
-- When a login succeeds, and what it leaves behind when it does not.
use carbonchain.Prelude.{String, ◌≡◌, ◌⊎◌, refl, true, false, inl, inr, Option, none, some}
use carbonchain.Auth.{ChallengeResponse}
use carbonchain.Frontend.{Outcome, fulfilled, rejected, Rejection, Outcome-cases}
use carbonchain.Frontend.Wallet.{FreighterApi, connect, is_connected, sign_transaction}
use carbonchain.Frontend.Session.{
  Api, Session, failed, is_authenticated, login, allowed, redirect, auth_guard,
}

-- Everything that a login asks for is granted: by the extension the connection, the key and the
-- signature, by the API the challenge and the token.
pub record Granted (ext : Option FreighterApi) (api : Api) (access_token : String) : Type 0 where
  pub freighter : FreighterApi
  pub key : String
  pub challenge : ChallengeResponse
  pub xdr : String
  pub is_installed : ext ≡ some freighter
  pub is_unlocked : freighter.is_connected ≡ fulfilled true
  pub has_key : freighter.get_public_key ≡ fulfilled key
  pub has_challenge : api.get_challenge key ≡ fulfilled challenge
  pub has_signature :
      freighter.sign_transaction challenge.transaction (some challenge.network_passphrase)
      ≡ fulfilled xdr
  pub has_token : api.get_token xdr ≡ fulfilled (record { access_token = access_token })

-- What a successful login leaves behind, and a failed one.
abbrev pub LoggedIn : String → Outcome (Unit {0}) × Session → Type 0
LoggedIn t (o, s) = (o ≡ fulfilled tt) × (auth_guard s ≡ allowed) × (s.token ≡ some t)

abbrev pub Refused : Session → Outcome (Unit {0}) × Session → Type 0
Refused before (o, s) =
    ((e : Rejection) × (o ≡ rejected e))
    × (auth_guard s ≡ redirect "/connect-wallet")
    × (s.token ≡ before.token)
    × (s.auth_state ≡ failed)

pub granted :
    (ext : Option FreighterApi) (api : Api) (s : Session) (t : String)
    → Granted ext api t
    → LoggedIn t (login ext api s)
unfolding login auth_guard is_authenticated connect sign_transaction is_connected
granted ext api s t g =
    rw (g.is_installed, g.is_unlocked, g.has_key, g.has_challenge, g.has_signature, g.has_token)
      (refl, refl, refl)

-- After a login that is granted the wallet has the key of the extension.
pub login-public_key :
    (ext : Option FreighterApi) (api : Api) (s : Session) (t : String) (g : Granted ext api t)
    → (is_authenticated (login ext api s).1 ≡ true)
      × ((login ext api s).1.wallet.public_key ≡ some g.key)
unfolding login is_authenticated connect sign_transaction is_connected
login-public_key ext api s t g =
    rw (g.is_installed, g.is_unlocked, g.has_key, g.has_challenge, g.has_signature, g.has_token)
      (refl, refl)

login_with :
    (f : FreighterApi) (api : Api) (s : Session)
    → ((t : String) × Granted (some f) api t) ⊎ Refused s (login (some f) api s)
unfolding login auth_guard is_authenticated connect sign_transaction is_connected
login_with f api s = elim (Outcome-cases f.is_connected) [
  | inr (e, c) ↦ inr (rw c ((e, refl), refl, refl, refl))
  | inl (false, c) ↦ inr (rw c ((_, refl), refl, refl, refl))
  | inl (true, c) ↦ elim (Outcome-cases f.get_public_key) [
    | inr (e, k) ↦ inr (rw (c, k) ((e, refl), refl, refl, refl))
    | inl (key, k) ↦ elim (Outcome-cases (api.get_challenge key)) [
      | inr (e, h) ↦ inr (rw (c, k, h) ((e, refl), refl, refl, refl))
      | inl (ch, h) ↦
          elim (Outcome-cases (f.sign_transaction ch.transaction (some ch.network_passphrase))) [
            | inr (e, x) ↦ inr (rw (c, k, h, x) ((e, refl), refl, refl, refl))
            | inl (xdr, x) ↦ elim (Outcome-cases (api.get_token xdr)) [
              | inr (e, t) ↦ inr (rw (c, k, h, x, t) ((e, refl), refl, refl, refl))
              | inl (r, t) ↦ inl (
                r.access_token,
                record {
                  freighter = f;
                  key = key;
                  challenge = ch;
                  xdr = xdr;
                  is_installed = refl;
                  is_unlocked = c;
                  has_key = k;
                  has_challenge = h;
                  has_signature = x;
                  has_token = t;
                },
              )
            ]
          ]
    ]
  ]
]

login-Refused :
    (ext : Option FreighterApi) (api : Api) (s : Session)
    → ((t : String) × Granted ext api t) ⊎ Refused s (login ext api s)
unfolding login auth_guard is_authenticated connect
login-Refused none api s = inr ((_, refl), refl, refl, refl)
login-Refused (some f) api s = login_with f api s

-- A login succeeds exactly if the extension and the API grant everything that it asks for; the session
-- then has the token and passes the guard of the routes. Otherwise its promise is rejected, the guard
-- redirects, the token of an earlier login stays in the session, and its state is the failure.
pub login_lem :
    (ext : Option FreighterApi) (api : Api) (s : Session)
    → ((t : String) × Granted ext api t × LoggedIn t (login ext api s))
      ⊎ (((t : String) → ¬ Granted ext api t) × Refused s (login ext api s))
login_lem ext api s = elim (login-Refused ext api s) [
  | inl (t, g) ↦ inl (t, g, granted ext api s t g)
  | inr refused ↦ inr (
    λ t g. let (o, a, k) = granted ext api s t g in let ((e, r), b, m, f) = refused in cc,
    refused,
  )
]
