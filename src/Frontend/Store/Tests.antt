-- ===== src/Frontend/Store/Tests.antt =====
-- The credit store at concrete inputs: two credits of the project `P1` and one of `P2`.
use carbonchain.Prelude.{◌⊎◌, String, ◌≡◌, refl, false, none, some, List, [], ◌∷◌}
use carbonchain.Prelude.Int.{pos, ◌+ℤ◌}
use carbonchain.Prelude.Results.{ok}
use carbonchain.Prelude.JsMap.{get}
use carbonchain.Shared.{CreditMetadata, active}
use carbonchain.Prelude.BigInt.{big_int}
use carbonchain.Credits.Listing.{parse_big_int}
use carbonchain.Frontend.{over_http, Outcome, fulfilled, rejected, other}
use carbonchain.Frontend.Store.{
  CreditStore, empty_store, is_loading, begin_load, end_load_one, credits_by_project, sum_tonnes,
  total_tonnes,
}
use carbonchain.External.Sample.{sample_sdk, sample_stellar}
use carbonchain.Cache.{Json, cache_get}
use carbonchain.Cache.Memory.{memory}
use carbonchain.Credits.Service.{Platform, State, look_up, get_credit, run as run_calls}
use carbonchain.Credits.Service.Ids.{IsCachedOwn}
use carbonchain.Frontend.Store.Backed.{Loaded, NotLoaded, end_load_one-get_credit}
use carbonchain.Frontend.Store.Merging.{
  Event, load_begins, project_answered, one_answered, selects, run, find_credit, view_run,
  run-refines,
}
use carbonchain.Frontend.Store.Loads.{
  one, by_project, World, start, begins, one_ends, Reach, here, next, Answers, settle,
  Reach-is_loading,
}
use carbonchain.Frontend.Store.Groups.{credits_by_project_lem}

abbrev credit : String → String → CreditMetadata
credit id project_id = record {
  id = id;
  project_id = project_id;
  issuer = "G";
  vintage_year = 2020;
  methodology = "VM0007";
  geography = "KE";
  tonnes = "5";
  ipfs_hash = "Qm";
  status = active;
  issued_at = 7;
}

abbrev answer : String → Outcome CreditMetadata
answer id = fulfilled (credit id "P1")

abbrev events : List Event
events =
    load_begins
    ∷ load_begins
    ∷ one_answered "c" (fulfilled (credit "c" "P2"))
    ∷ project_answered (fulfilled ("a" ∷ "b" ∷ [])) answer
    ∷ selects (some "a")
    ∷ one_answered "x" (rejected other)
    ∷ one_answered "c" (fulfilled (credit "c" "P2"))
    ∷ []

run-refines_example :
    find_credit "c" (run events empty_store).credits ≡ view_run events (λ _. none) "c"
run-refines_example =
    run-refines events "c" (tt, (tt, (refl, ((λ id. refl), (tt, (tt, (refl, tt)))))))

abbrev answers : Answers
answers = record { credit = answer; ids = λ p. rejected other }

abbrev two_loads : World
two_loads = record {
  store = end_load_one "a" (rejected other) (begin_load (begin_load empty_store));
  outstanding = by_project "P1" ∷ [];
}

two_loads-Reach : Reach start two_loads
two_loads-Reach =
    next (next (next here (begins (by_project "P1") refl)) (begins (one "a") refl))
      (one_ends [] (by_project "P1" ∷ []) "a" (rejected other) refl refl)

Reach-is_loading_example :
    (two_loads.outstanding ≡ [] → is_loading two_loads.store ≡ false)
    × Reach start
        (record { store = settle answers two_loads.outstanding two_loads.store; outstanding = [] })
    × (is_loading (settle answers two_loads.outstanding two_loads.store) ≡ false)
Reach-is_loading_example = Reach-is_loading answers two_loads-Reach

abbrev three : CreditStore
three = record empty_store { credits = credit "a" "P1" ∷ credit "c" "P2" ∷ credit "b" "P1" ∷ [] }

credits_by_project_lem_example :
    get "P1" (credits_by_project three) ≡ some (credit "a" "P1" ∷ credit "b" "P1" ∷ [])
credits_by_project_lem_example = credits_by_project_lem three "P1"

three-total_tonnes : total_tonnes three ≡ ok (pos 15)
unfolding total_tonnes sum_tonnes parse_big_int ◌+ℤ◌ big_int
three-total_tonnes = refl

abbrev no_json : {A : Type 0} → Json A
no_json = record { stringify = λ a. "{}"; parse = λ t. none }

-- A credit service without Redis.
abbrev platform : Platform
platform = record {
  sdk = sample_sdk;
  stellar = sample_stellar;
  redis = memory;
  credit_json = no_json;
  page_json = no_json;
  filter_json = λ f. "{}";
  to_lower_case = λ s. s;
  contract_id = "CREG";
  admin = some "SADMIN";
  cache = record { connected = false; default_ttl_seconds = 60 };
}

abbrev service : State platform
service = record { cached = []; repo = []; chain = [] }

abbrev served : State platform
served = run_calls platform (look_up "0a" ∷ []) service

uncached : IsCachedOwn platform "0a" served
unfolding cache_get
uncached m h = cc

end_load_one-get_credit_example :
    Loaded platform served "0a" three
      (end_load_one "0a" (over_http (get_credit platform "0a" served).0) three)
    ⊎ NotLoaded platform served "0a" three
        (end_load_one "0a" (over_http (get_credit platform "0a" served).0) three)
end_load_one-get_credit_example =
    end_load_one-get_credit platform (look_up "0a" ∷ []) service "0a" three refl uncached
