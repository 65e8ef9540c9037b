-- ===== src/Credits/Service/FailedTransaction.antt =====
-- Issuing a credit through the contract client when the transaction fails on the chain.
use carbonchain.Prelude.{String, ℕ, ◌<◌, ◌≡◌, refl, true, none, some, List}
use carbonchain.Prelude.Results.{ok}
use carbonchain.External.{Sdk}
use carbonchain.Keypair.{get_admin_keypair}
use carbonchain.Stellar.{
  TransactionResponse, SendResponse, Network, invoke_contract, contract_client, submit,
}
use carbonchain.Stellar.Polling.{AllWaiting, answer_at, submitted-failed}
use carbonchain.Credits.Repository.{find_by_id}
use carbonchain.Credits.Service.{
  IssueCreditDto, Platform, State, issue_args, issue_credit, issued_entity,
}
use carbonchain.Credits.Service.Index.{issue_credit-no_value}

-- A call on the network whose transaction is built, simulated with success, prepared and sent: it is
-- accepted for execution, and one of the ten status answers, before which the transaction was not found
-- or pending, is then that it failed, without a return value.
pub record FailedCall {sdk : Sdk} (net : Network sdk) (passphrase contract method : String)
    (args : List sdk.ScVal) (signer : sdk.Keypair) (s : net.State) : Type 0 where
  pub account : net.Account
  pub tx : net.Transaction
  pub prepared : net.Transaction
  pub simulation : net.Simulation
  pub response : SendResponse
  pub k : ℕ
  pub failure : TransactionResponse sdk.ScVal
  pub is_loaded : (net.load_account (net.public_key signer) s).0 ≡ ok account
  pub is_built : net.build_invocation account "1000" passphrase contract method args ≡ ok tx
  pub is_simulated :
      (net.simulate tx (net.load_account (net.public_key signer) s).1).0 ≡ ok simulation
  pub is_success : net.is_success simulation ≡ true
  pub is_prepared : net.assemble tx simulation ≡ ok prepared
  pub sent : net.State
  pub is_sent :
      net.send
        (net.sign signer prepared)
        (net.simulate tx (net.load_account (net.public_key signer) s).1).1
      ≡ (ok response, sent)
  pub is_pending : response.status ≡ "PENDING"
  pub in_time : k < 10
  pub waited : AllWaiting net response.hash k sent
  pub is_answered : answer_at net response.hash k sent ≡ ok failure
  pub is_failed : failure.status ≡ "FAILED"
  pub no_value : failure.return_value ≡ none

invoke_contract-failed :
    {sdk : Sdk} (net : Network sdk) (passphrase contract method : String) (args : List sdk.ScVal)
    (signer : sdk.Keypair) (s : net.State)
    (c : FailedCall net passphrase contract method args signer s)
    → (invoke_contract net passphrase contract method args signer s).0 ≡ ok c.failure
unfolding invoke_contract submit
invoke_contract-failed net passphrase contract method args signer s c =
    let end =
      submitted-failed net c.response c.failure c.k c.sent c.is_pending c.in_time c.waited
        c.is_answered c.is_failed in
    rw (c.is_loaded, c.is_built, c.is_simulated, c.is_success, c.is_prepared, submit, c.is_sent) end

-- The credit service with the contract client on a network.
abbrev pub over : (p : Platform) → Network p.sdk → String → Platform
over p net passphrase = record p { stellar = contract_client net passphrase }

value_of-failed :
    {sdk : Sdk} (net : Network sdk) (passphrase contract method : String) (args : List sdk.ScVal)
    (signer : sdk.Keypair) (s : net.State)
    (c : FailedCall net passphrase contract method args signer s)
    → ((contract_client net passphrase).invoke_contract contract method args signer s).0 ≡ ok none
value_of-failed net passphrase contract method args signer s c =
    rw (invoke_contract-failed net passphrase contract method args signer s c, c.no_value) refl

-- Where the arguments can be built and the admin key is loaded, a credit whose transaction was accepted, and
-- was found within the ten questions to have failed on the chain without a value, is reported as issued,
-- under the id `unknown`, and is in the index with the data of the request: neither the contract client
-- nor the service throws.
pub issue_credit-contract_client :
    (p : Platform) (net : Network p.sdk) (passphrase : String) (dto : IssueCreditDto) (now : ℕ)
    (s : State (over p net passphrase)) (args : List p.sdk.ScVal) (signer : p.sdk.Keypair)
    → issue_args (over p net passphrase) dto ≡ ok args
    → get_admin_keypair p.admin ≡ ok signer
    → FailedCall net passphrase p.contract_id "submit_credit" args signer s.chain
    → ((issue_credit (over p net passphrase) dto now s).0 ≡ ok "unknown")
      × (find_by_id "unknown" (issue_credit (over p net passphrase) dto now s).1.repo
          ≡ some (issued_entity dto "unknown" now))
issue_credit-contract_client p net passphrase dto now s args signer made key call =
    issue_credit-no_value (over p net passphrase) dto now s args signer made key
      (value_of-failed net passphrase p.contract_id "submit_credit" args signer s.chain call)
