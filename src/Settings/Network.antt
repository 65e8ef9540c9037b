-- ===== src/Settings/Network.antt =====
-- The network that an admitted setting selects.
use carbonchain.Prelude.{
  String, ◌≡◌, refl, true, false, inl, inr, Option, some, any, ◌⊎◌, sym, arith, ◌===◌, ===_iff,
  Bool-cases,
}
use carbonchain.External.{Sdk}
use carbonchain.Stellar.{Network, network_passphrase}
use carbonchain.Auth.Sdk.{WalletSdk}
use carbonchain.Auth.{new_auth_service}
use carbonchain.Settings.{valid_networks}

-- `toUpperCase` on the admitted values.
pub record UpperCase {sdk : Sdk} (net : Network sdk) : Type 0 where
  pub to_upper_case-testnet : net.to_upper_case "testnet" ≡ "TESTNET"
  pub to_upper_case-mainnet : net.to_upper_case "mainnet" ≡ "MAINNET"

admitted :
    (n : String) → any (λ m. m === n) valid_networks ≡ true → (n ≡ "testnet") ⊎ (n ≡ "mainnet")
admitted n h = elim (Bool-cases ("testnet" === n)) [
  | inl e ↦ inl (sym ((===_iff "testnet" n).0 e))
  | inr e ↦ inr (sym ((===_iff "mainnet" n).0 (ground arith)))
]

testnet_selected :
    {sdk : Sdk} (net : Network sdk) (n u : String)
    → net.to_upper_case n ≡ u
    → (u === "PUBLIC") ≡ false
    → (u === "FUTURENET") ≡ false
    → network_passphrase net (some n) ≡ net.testnet_passphrase
unfolding network_passphrase
testnet_selected net n u up public future = ground arith

-- Whichever of the admitted values is configured as the network, `mainnet` too, the contract client and
-- the authentication both work with the passphrase of the test network.
pub network_passphrase-new_auth_service :
    {sdk : Sdk} (net : Network sdk) (upper : UpperCase net) (w : WalletSdk) (network : String)
    (home_domain : Option String)
    → any (λ m. m === network) valid_networks ≡ true
    → (network_passphrase net (some network) ≡ net.testnet_passphrase)
      × ((new_auth_service w (some network) home_domain).network_passphrase ≡ w.testnet_passphrase)
unfolding new_auth_service
network_passphrase-new_auth_service net upper w network home_domain h = elim (admitted network h) [
  | inl e ↦
      rw e (testnet_selected net "testnet" "TESTNET" upper.to_upper_case-testnet refl refl, refl)
  | inr e ↦
      rw e (testnet_selected net "mainnet" "MAINNET" upper.to_upper_case-mainnet refl refl, refl)
]
