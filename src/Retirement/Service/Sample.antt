-- ===== src/Retirement/Service/Sample.antt =====
-- A request and a platform that the tests use.
use carbonchain.Prelude.{refl, ◌++◌, true, some, List, [], ◌∷◌}
use carbonchain.Prelude.Results.{ok}
use carbonchain.External.Sample.{sample_sdk, sample_stellar}
use carbonchain.Retirement.Repository.{RetirementRepository, in_memory}
use carbonchain.Retirement.Service.{RetireDto, CreditRetiredEvent, EventEmitter, Platform, State}
use carbonchain.Retirement.Service.Ordering.{Emitted}

-- A bus that records what is emitted.
abbrev pub bus : EventEmitter
bus = record { Bus = List CreditRetiredEvent; emit = λ name e b. (ok true, b ++ e ∷ []) }

abbrev pub recorded : Emitted bus
recorded = record { emitted = λ b. b; emitted-emit = λ name e b. refl }

abbrev pub dto : RetireDto
dto = record { buyer_public_key = "GBUYER"; credit_id = "0a"; tonnes = "5"; reason = "offset" }

abbrev pub platform : RetirementRepository → Platform
platform r = record {
  sdk = sample_sdk;
  stellar = sample_stellar;
  repository = r;
  emitter = bus;
  admin = some "SADMIN";
  retirement_contract_id = "CRET";
  registry_contract_id = "CREG";
}

abbrev pub p : Platform
p = platform in_memory

abbrev pub start : State p
start = record { chain = []; store = []; bus = [] }
