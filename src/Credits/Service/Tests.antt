-- ===== src/Credits/Service/Tests.antt =====
-- The credit service at concrete inputs.
use carbonchain.Prelude.{
  ℕ, zero, suc, ◌+◌, String, ◌≡◌, ◌↔◌, inl, refl, true, none, some, List, [], ◌∷◌, arith, filter,
}
use carbonchain.Prelude.Int.{pos}
use carbonchain.Prelude.Results.{ok}
use carbonchain.Prelude.BigInt.{big_int}
use carbonchain.Shared.{CreditMetadata}
use carbonchain.External.Sample.{sample_sdk}
use carbonchain.Keypair.{get_admin_keypair}
use carbonchain.Cache.{cache_get}
use carbonchain.Paging.{paginate}
use carbonchain.Credits.Repository.{find_by_id, save, find_all}
use carbonchain.Credits.Listing.{
  ListCreditsFilter, with_default_status, parse_big_int, apply_filters,
}
use carbonchain.Credits.Listing.Matching.{Matches, wanted, apply_filters-Matches}
use carbonchain.Stellar.{Network, TransactionResponse}
use carbonchain.Stellar.Polling.{after, AllWaiting}
use carbonchain.Credits.Service.FailedTransaction.{over, issue_credit-contract_client}
use carbonchain.Credits.Service.{
  Platform, State, entity_to_metadata, issued_entity, issue_credit, get_credit, get_bulk_credits,
  list_credits, issue, step, run,
}
use carbonchain.Credits.Service.Reads.{list_credits-default_empty}
use carbonchain.Credits.Service.Sample.{dto, issued, p, start, any_credit}

service : Unit {0}
unfolding cache_get run step issue_credit get_credit list_credits get_bulk_credits issued_entity
    get_admin_keypair find_by_id save find_all entity_to_metadata parse_big_int with_default_status
    apply_filters paginate
service = tt

big_int_tests :
    (big_int " 42 " ≡ some (pos 42))
    × (big_int "" ≡ some (pos 0))
    × (big_int "0xff" ≡ some (pos 255))
    × (big_int "4.2" ≡ none)
unfolding big_int
big_int_tests = (refl, refl, refl, refl)

issue_test : (issue_credit p dto 1700000000 start).0 ≡ ok "0a"
unfolding service
issue_test = refl

abbrev pendings : ListCreditsFilter
pendings = record any_credit { status = some "Pending"; min_tonnes = some "1000000" }

-- A network on which every transaction is accepted and then fails.
-- The transaction is not found at first, and has failed two seconds later.
abbrev status_at : ℕ → TransactionResponse String
status_at zero = record { status = "NOT_FOUND"; return_value = none }
status_at (suc t) = record { status = "FAILED"; return_value = none }

abbrev failing : Network sample_sdk
failing = record {
  State = ℕ;
  Account = Unit;
  Transaction = Unit;
  Simulation = Unit;
  public_passphrase = "Public";
  futurenet_passphrase = "Future";
  testnet_passphrase = "Test";
  to_upper_case = λ t. t;
  public_key = λ k. k;
  load_account = λ k s. (ok tt, s);
  zero_account = tt;
  build_invocation = λ a fee passphrase contract method args. ok tt;
  simulate = λ tx s. (ok tt, s);
  is_success = λ x. true;
  retval = λ x. none;
  to_json = λ x. "{}";
  assemble = λ tx x. ok tt;
  sign = λ k tx. tx;
  send = λ tx s. (ok (record { status = "PENDING"; hash = "h" }), s);
  get_transaction = λ h s. (ok (status_at s), s);
  sleep = λ ms s. s + ms;
}

abbrev on_failing : Platform
on_failing = over p failing "Test"

abbrev start_failing : State on_failing
start_failing = record { cached = []; repo = []; chain = 0 }

-- The first answer is to wait.
first_waits : AllWaiting failing "h" 1 0
unfolding after
first_waits zero h = (status_at 0, refl, inl refl)
first_waits (suc j) h = absurd (omega arith)

issue_credit-contract_client_example :
    ((issue_credit on_failing dto 1700000000 start_failing).0 ≡ ok "unknown")
    × (find_by_id "unknown" (issue_credit on_failing dto 1700000000 start_failing).1.repo
        ≡ some (issued_entity dto "unknown" 1700000000))
unfolding service after
issue_credit-contract_client_example =
    issue_credit-contract_client p failing "Test" dto 1700000000 start_failing
      ("GISSUER" ∷ "PROJ-001" ∷ "value" ∷ "VCS" ∷ "NG" ∷ "value" ∷ "baf" ∷ []) "SADMIN" refl refl
      (record {
        account = tt;
        tx = tt;
        prepared = tt;
        simulation = tt;
        response = record { status = "PENDING"; hash = "h" };
        failure = record { status = "FAILED"; return_value = none };
        is_loaded = refl;
        is_built = refl;
        is_simulated = refl;
        is_success = refl;
        is_prepared = refl;
        k = 1;
        sent = 0;
        is_sent = refl;
        in_time = omega arith;
        waited = first_waits;
        is_pending = refl;
        is_failed = refl;
        no_value = refl;
        is_answered = refl;
      })

apply_filters-Matches_example :
    (issued ∷ [] ≡ filter (wanted (λ s. s) pendings) (issued ∷ []))
    × ((c : CreditMetadata) → (wanted (λ s. s) pendings c ≡ true) ↔ Matches (λ s. s) pendings c)
unfolding service
apply_filters-Matches_example =
    apply_filters-Matches (λ s. s) pendings (issued ∷ []) (issued ∷ []) refl

abbrev after_issue : State p
after_issue = record {
  cached = [];
  repo = ("0a", issued_entity dto "0a" 1700000000) ∷ [];
  chain = [];
}

list_credits-default_empty_example : ◌≡◌ {A = List CreditMetadata} [] [] × (◌≡◌ {A = ℕ} 0 0)
unfolding service
list_credits-default_empty_example =
    list_credits-default_empty p (issue dto 1700000000 ∷ []) start any_credit
      (record { items = []; total = 0; page = pos 1; limit = pos 10 }) refl (inl refl) (omega arith)
      refl refl
