-- ===== src/Frontend/Marketplace/Button.antt =====
-- What the button for the wallet looks like after a click.
use carbonchain.Prelude.{
  String, ◌≡◌, ◌∙◌, ap, refl, ◌⊎◌, inl, inr, Bool, true, false, Option, none, some,
}
use carbonchain.Frontend.Wallet.{FreighterApi}
use carbonchain.Frontend.Session.{Api, Session, is_authenticated, failed, login}
use carbonchain.Frontend.Session.Login.{Granted, login-public_key, login_lem}
use carbonchain.Frontend.Marketplace.{
  Visit, WalletButton, disconnect, install, connect, wallet_button, connect_wallet,
}

-- The button of a session without a key can be clicked, or leads to the extension.
abbrev pub CanRetry : Bool → Option FreighterApi → WalletButton → Type 0
CanRetry compact ext b = (b ≡ connect true) ⊎ ((compact ≡ false) × (ext ≡ none) × (b ≡ install))

failed-CanRetry :
    (compact : Bool) (ext : Option FreighterApi) (s : Session)
    → s.auth_state ≡ failed
    → CanRetry compact ext (wallet_button compact ext s)
unfolding wallet_button is_authenticated
failed-CanRetry true ext s h = inl (rw h refl)
failed-CanRetry false none s h = inr (refl, refl, rw h refl)
failed-CanRetry false (some f) s h = inl (rw h refl)

entered-disconnect :
    (compact : Bool) (ext : Option FreighterApi) (s : Session)
    → is_authenticated s ≡ true
    → wallet_button compact ext s ≡ disconnect s.wallet.public_key
unfolding wallet_button
entered-disconnect compact ext s h = rw h refl

-- After a click on the button for the wallet it is never left waiting, whatever the extension and the API
-- answer: it shows the key of the wallet if they grant everything that a login asks for; otherwise it
-- can be clicked again or, on a page without the extension, leads to its installation.
pub wallet_button-connect_wallet :
    (compact : Bool) (ext : Option FreighterApi) (api : Api) (v : Visit)
    → let b = wallet_button compact ext (connect_wallet ext api v).session in
      ((t : String) × (g : Granted ext api t) × (b ≡ disconnect (some g.key)))
      ⊎ (((t : String) → ¬ Granted ext api t) × CanRetry compact ext b)
unfolding connect_wallet
wallet_button-connect_wallet compact ext api v =
    let s = (login ext api v.session).1 in
    elim (login_lem ext api v.session) [
      | inl (t, g, done) ↦
          let (entered, key) = login-public_key ext api v.session t g in
          inl (t, g, entered-disconnect compact ext s entered ∙ ap disconnect key)
      | inr (refused, (_, _, _, state)) ↦ inr (refused, failed-CanRetry compact ext s state)
    ]
