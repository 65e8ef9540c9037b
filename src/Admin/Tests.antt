-- ===== src/Admin/Tests.antt =====
-- The admin operations on the sample contract, which lists the verifier `0b`.
use carbonchain.Prelude.{◌≡◌, refl, true, false, none, List, [], ◌∷◌}
use carbonchain.Prelude.Results.{ok}
use carbonchain.External.Sample.{sample_sdk, sample_stellar}
use carbonchain.Cache.{Json}
use carbonchain.Cache.Memory.{memory}
use carbonchain.Verifiers.{get_verifier}
use carbonchain.Credits.Service.{Platform, State}
use carbonchain.Credits.Service.ReadOnly.{ReadsOnly}
use carbonchain.Admin.{register_verifier, Call, stats, register, suspend, flag, run}
use carbonchain.Admin.Unchanged.{run-get_verifier}

abbrev no_json : {A : Type 0} → Json A
no_json = record { stringify = λ a. "{}"; parse = λ t. none }

abbrev platform : Platform
platform = record {
  sdk = sample_sdk;
  stellar = sample_stellar;
  redis = memory;
  credit_json = no_json;
  page_json = no_json;
  filter_json = λ f. "{}";
  to_lower_case = λ s. s;
  contract_id = "CREG";
  admin = none;
  cache = record { connected = false; default_ttl_seconds = 60 };
}

abbrev reads : ReadsOnly sample_sdk sample_stellar
reads = record { read_contract-chain = λ contract method args c. refl }

abbrev start : State platform
start = record { cached = []; repo = []; chain = [] }

abbrev calls : List (Call platform)
calls = stats ∷ register "GNEW" ∷ suspend "0b" ∷ flag "0c" ∷ []

run-get_verifier_example :
    ((run platform calls start).repo ≡ [])
    × ((run platform calls start).chain ≡ [])
    × ((get_verifier sample_sdk sample_stellar "CREG" "GNEW" (run platform calls start).chain).0
        ≡ (get_verifier sample_sdk sample_stellar "CREG" "GNEW" []).0)
    × ((register_verifier platform "GNEW" (run platform calls start)).0
        ≡ ok (record { registered = true; address = "GNEW" }))
run-get_verifier_example = run-get_verifier platform reads calls start "GNEW"
