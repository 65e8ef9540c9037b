-- ===== src/Settings/Tests.antt =====
-- A network and a wallet SDK that name their passphrases alike.
use carbonchain.Prelude.{String, ◌≡◌, refl, true, none, some, ◌===◌, if◌then◌else◌}
use carbonchain.Prelude.Results.{ok, err, error}
use carbonchain.External.Sample.{sample_sdk}
use carbonchain.Stellar.{Network, network_passphrase}
use carbonchain.Auth.{new_auth_service}
use carbonchain.Auth.Sample.{wallets}
use carbonchain.Settings.Network.{UpperCase, network_passphrase-new_auth_service}

abbrev upper_case : String → String
upper_case s = if s === "mainnet" then "MAINNET" else if s === "testnet" then "TESTNET" else s

abbrev net : Network sample_sdk
net = record {
  State = Unit;
  Account = Unit;
  Transaction = Unit;
  Simulation = Unit;
  public_passphrase = "Public";
  futurenet_passphrase = "Future";
  testnet_passphrase = "Test";
  to_upper_case = upper_case;
  public_key = λ k. k;
  load_account = λ k s. (ok tt, s);
  zero_account = tt;
  build_invocation = λ a fee passphrase contract method args. ok tt;
  simulate = λ tx s. (ok tt, s);
  is_success = λ x. true;
  retval = λ x. none;
  to_json = λ x. "{}";
  assemble = λ tx x. ok tt;
  sign = λ k tx. tx;
  send = λ tx s. (err (error "offline"), s);
  get_transaction = λ h s. (err (error "offline"), s);
  sleep = λ ms s. s;
}

abbrev upper : UpperCase net
upper = record { to_upper_case-testnet = refl; to_upper_case-mainnet = refl }

network_passphrase-new_auth_service_example :
    (network_passphrase net (some "mainnet") ≡ "Test")
    × ((new_auth_service (wallets "C") (some "mainnet") none).network_passphrase ≡ "Test")
network_passphrase-new_auth_service_example =
    network_passphrase-new_auth_service net upper (wallets "C") "mainnet" none refl
