-- ===== src/Stellar.antt =====
-- api/src/stellar/stellar.service.ts: invoking and reading contracts. Horizon, the RPC server, the
-- transaction builder and the clock are parameters; `contract_client` fills the interface that the
-- other services use.
pub mod Ledger
pub mod Polling
mod Tests
use carbonchain.Prelude.{
  ℕ, zero, suc, String, ◌+++◌, Bool, true, false, ◌||◌, not, Option, none, some, List, ◌===◌,
  is_empty,
}
use carbonchain.Prelude.Results.{Result, ok, err, error, Io, ◌>>=◌, pure, throw, lift, ◌>>?◌}
use carbonchain.External.{Sdk, Stellar}

-- The answer to `getTransaction`.
pub record TransactionResponse (V : Type 0) : Type 0 where
  pub status : String
  pub return_value : Option V

-- The answer to `sendTransaction`.
pub record SendResponse : Type 0 where
  pub status : String
  pub hash : String

pub record Network (sdk : Sdk) : Type 1 where
  pub State : Type 0
  pub Account : Type 0
  pub Transaction : Type 0
  pub Simulation : Type 0
  pub public_passphrase : String
  pub futurenet_passphrase : String
  pub testnet_passphrase : String
  pub to_upper_case : String → String
  pub public_key : sdk.Keypair → String
  pub load_account : String → State → Result Account × State
  pub zero_account : Account
  pub build_invocation :
      Account → String → String → String → String → List sdk.ScVal → Result Transaction
  pub simulate : Transaction → State → Result Simulation × State
  pub is_success : Simulation → Bool
  pub retval : Simulation → Option sdk.ScVal
  pub to_json : Simulation → String
  pub assemble : Transaction → Simulation → Result Transaction
  pub sign : sdk.Keypair → Transaction → Transaction
  pub send : Transaction → State → Result SendResponse × State
  pub get_transaction : String → State → Result (TransactionResponse sdk.ScVal) × State
  pub sleep : ℕ → State → State

abbrev pub or_testnet : Option String → String
or_testnet none = "TESTNET"
or_testnet (some n) = n

abbrev pub is_final : String → Bool
is_final status = not (status === "NOT_FOUND" || status === "PENDING")

abbrev pub poll_delay_ms : ℕ
poll_delay_ms = 2000

abbrev pub poll_retries : ℕ
poll_retries = 10

module _ {sdk : Sdk} (net : Network sdk) where
  -- The passphrase after `onModuleInit`, by the configured STELLAR_NETWORK.
  unfoldable pub network_passphrase : Option String → String
  network_passphrase network =
      let n = net.to_upper_case (or_testnet network) in
      elim (n === "PUBLIC") [
        | true ↦ net.public_passphrase
        | false ↦ elim (n === "FUTURENET") [
          | true ↦ net.futurenet_passphrase
          | false ↦ net.testnet_passphrase
        ]
      ]

  pub poll_transaction_status : String → ℕ → Io net.State (TransactionResponse sdk.ScVal)
  poll_transaction_status hash zero s =
      (err (error ("Transaction polling timed out for hash: " +++ hash)), s)
  poll_transaction_status hash (suc n) s =
      let (answer, s1) = net.get_transaction hash s in
      elim answer [
        | err e ↦ (err e, s1)
        | ok r ↦ elim (is_final r.status) [
          | true ↦ (ok r, s1)
          | false ↦ poll_transaction_status hash n (net.sleep poll_delay_ms s1)
        ]
      ]

  pub submitted : SendResponse → Io net.State (TransactionResponse sdk.ScVal)
  submitted r s = elim (r.status === "PENDING") [
    | true ↦ poll_transaction_status r.hash poll_retries s
    | false ↦ (err (error ("Transaction failed with status: " +++ r.status)), s)
  ]

  -- What follows the simulation in `invokeContract`.
  unfoldable pub submit :
      net.Transaction → sdk.Keypair → net.Simulation → Io net.State (TransactionResponse sdk.ScVal)
  unfolding submitted
  submit tx signer simulation = elim (net.is_success simulation) [
    | true ↦ lift (net.assemble tx simulation) >>= λ prepared.
        net.send (net.sign signer prepared) >>= submitted
    | false ↦ throw (error ("Simulation failed: " +++ net.to_json simulation))
  ]

  unfoldable pub invoke_contract :
      String
      → String
      → String
      → List sdk.ScVal
      → sdk.Keypair
      → Io net.State (TransactionResponse sdk.ScVal)
  invoke_contract passphrase contract_id method args signer = do
    account ← net.load_account (net.public_key signer)
    tx ← lift (net.build_invocation account "1000" passphrase contract_id method args)
    simulation ← net.simulate tx
    submit tx signer simulation

  abbrev pub simulated : net.Simulation → Option sdk.ScVal
  simulated simulation = elim (net.is_success simulation) [
    | true ↦ net.retval simulation
    | false ↦ none
  ]

  pub read_contract : String → String → String → List sdk.ScVal → Io net.State (Option sdk.ScVal)
  read_contract passphrase contract_id method args = do
    tx ← lift (net.build_invocation net.zero_account "100" passphrase contract_id method args)
    simulation ← net.simulate tx
    pure (simulated simulation)

  abbrev pub value_of :
      Result (TransactionResponse sdk.ScVal) × net.State → Result (Option sdk.ScVal) × net.State
  value_of (r, s) = (r >>? λ t. ok t.return_value, s)

  -- The service as the other services see it: of a transaction they read the `returnValue` only.
  abbrev pub contract_client : String → Stellar sdk
  contract_client passphrase = record {
    Chain = net.State;
    invoke_contract = λ contract method args signer s.
        value_of (invoke_contract passphrase contract method args signer s);
    read_contract = λ contract method args s. read_contract passphrase contract method args s;
  }
