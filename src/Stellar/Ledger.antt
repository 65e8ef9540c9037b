-- ===== src/Stellar/Ledger.antt =====
-- api/src/stellar/stellar.service.ts: `buildAndSubmit` and `getContractData`, which no other service calls.
use carbonchain.Prelude.{String, Option, none, some, List, [], ◌∷◌}
use carbonchain.Prelude.Results.{Result, ok, Io, ◌>>=◌, lift, ◌>>?◌}
use carbonchain.External.{Sdk}
use carbonchain.Stellar.{Network}

-- What the two methods take from the SDK besides the network.
pub record Ledger {sdk : Sdk} (net : Network sdk) : Type 1 where
  pub Operation : Type 0
  pub Submitted : Type 0
  pub Durability : Type 0
  pub Entry : Type 0
  pub persistent : Durability
  pub build : net.Account → String → String → List Operation → Result net.Transaction
  pub submit_transaction : net.Transaction → net.State → Result Submitted × net.State
  pub get_ledger_entries :
      String → sdk.ScVal → Durability → net.State → Result (Option (List Entry)) × net.State
  pub contract_data : Entry → Result sdk.ScVal

module _ {sdk : Sdk} (net : Network sdk) (ledger : Ledger net) where
  open ledger use {Operation, Submitted, Durability, Entry}

  pub build_and_submit : String → List Operation → sdk.Keypair → Io net.State Submitted
  build_and_submit passphrase operations signer = do
    account ← net.load_account (net.public_key signer)
    tx ← lift (ledger.build account "1000" passphrase operations)
    ledger.submit_transaction (net.sign signer tx)

  abbrev pub or_persistent : Option Durability → Durability
  or_persistent none = ledger.persistent
  or_persistent (some d) = d

  -- The value of the first entry, if there is one.
  abbrev pub first_value : Option (List Entry) → Result (Option sdk.ScVal)
  first_value none = ok none
  first_value (some []) = ok none
  first_value (some (e ∷ es)) = ledger.contract_data e >>? λ v. ok (some v)

  pub get_contract_data : String → sdk.ScVal → Option Durability → Io net.State (Option sdk.ScVal)
  get_contract_data contract_id key durability = do
    entries ← ledger.get_ledger_entries contract_id key (or_persistent durability)
    lift (first_value entries)
