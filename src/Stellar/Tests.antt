-- ===== src/Stellar/Tests.antt =====
-- The contract client on a network that plays a list of answers.
use carbonchain.Prelude.{ℕ, ◌+◌, String, ◌≡◌, ◌⊎◌, refl, true, none, List, [], ◌∷◌}
use carbonchain.Prelude.Results.{Result, ok, err, error}
use carbonchain.External.Sample.{sample_sdk}
use carbonchain.Stellar.{
  TransactionResponse, Network, poll_transaction_status, submitted, submit, invoke_contract,
  contract_client,
}
use carbonchain.Stellar.Polling.{Decided, TimedOut, poll_transaction_status_lem}

abbrev with_status : String → TransactionResponse String
with_status status = record { status = status; return_value = none }

-- The time, and the answers to come; none left is an error.
abbrev Played : Type 0
Played = ℕ × List String

abbrev next_answer : Played → Result (TransactionResponse String) × Played
next_answer (t, []) = (err (error "no answer"), (t, []))
next_answer (t, a ∷ rest) = (ok (with_status a), (t, rest))

abbrev net : Network sample_sdk
net = record {
  State = Played;
  Account = Unit;
  Transaction = Unit;
  Simulation = Unit;
  public_passphrase = "Public";
  futurenet_passphrase = "Future";
  testnet_passphrase = "Test";
  to_upper_case = λ s. s;
  public_key = λ k. k;
  load_account = λ k s. (ok tt, s);
  zero_account = tt;
  build_invocation = λ a fee passphrase contract method args. ok tt;
  simulate = λ tx s. (ok tt, s);
  is_success = λ x. true;
  retval = λ x. none;
  to_json = λ x. "{}";
  assemble = λ tx x. ok tt;
  sign = λ k tx. tx;
  send = λ tx s. (ok (record { status = "PENDING"; hash = "h" }), s);
  get_transaction = λ h s. next_answer s;
  sleep = λ ms s. (s.0 + ms, s.1);
}

abbrev slow : Played
slow = (0, "NOT_FOUND" ∷ "PENDING" ∷ "SUCCESS" ∷ "FAILED" ∷ [])

polling : Unit {0}
unfolding poll_transaction_status submitted submit invoke_contract
polling = tt

third :
    poll_transaction_status net "h" 10 slow ≡ (ok (with_status "SUCCESS"), (4000, "FAILED" ∷ []))
unfolding polling
third = refl

-- The failed transaction is an answer without a value for the services.
no_value :
    ((contract_client net "Test").invoke_contract "CREG" "submit_credit" [] "S"
      (0, "FAILED" ∷ [])).0
    ≡ ok none
unfolding polling
no_value = refl

poll_transaction_status_lem_example :
    Decided net "h" 10 slow (poll_transaction_status net "h" 10 slow)
    ⊎ TimedOut net "h" 10 slow (poll_transaction_status net "h" 10 slow)
poll_transaction_status_lem_example = poll_transaction_status_lem net "h" 10 slow
