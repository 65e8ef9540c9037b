-- ===== src/Credits/Service/Sample.antt =====
-- A credit, a request and a platform that the tests use.
use carbonchain.Prelude.{Bool, false, none, some, []}
use carbonchain.Prelude.Int.{pos}
use carbonchain.Shared.{pending, CreditMetadata}
use carbonchain.External.Sample.{sample_sdk, sample_stellar}
use carbonchain.Cache.{Json}
use carbonchain.Cache.Memory.{memory}
use carbonchain.Credits.Listing.{ListCreditsFilter}
use carbonchain.Credits.Service.{IssueCreditDto, Platform, State}

abbrev pub dto : IssueCreditDto
dto = record {
  issuer_public_key = "GISSUER";
  project_id = "PROJ-001";
  vintage_year = 2024;
  methodology = "VCS";
  geography = "NG";
  tonnes = "1000000";
  ipfs_hash = "baf";
}

abbrev pub issued : CreditMetadata
issued = record {
  id = "0a";
  project_id = "PROJ-001";
  issuer = "GISSUER";
  vintage_year = 2024;
  methodology = "VCS";
  geography = "NG";
  tonnes = "1000000";
  ipfs_hash = "baf";
  status = pending;
  issued_at = 1700000000;
}

-- An encoding that keeps the id alone, read back as `issued`.
abbrev pub id_json : Json CreditMetadata
id_json = record { stringify = λ c. "{}"; parse = λ t. some issued }

abbrev pub no_json : {A : Type 0} → Json A
no_json = record { stringify = λ a. "{}"; parse = λ t. none }

abbrev pub platform : Bool → Platform
platform connected = record {
  sdk = sample_sdk;
  stellar = sample_stellar;
  redis = memory;
  credit_json = id_json;
  page_json = no_json;
  filter_json = λ f. "{}";
  to_lower_case = λ s. s;
  contract_id = "CREG";
  admin = some "SADMIN";
  cache = record { connected = connected; default_ttl_seconds = 60 };
}

abbrev pub p : Platform
p = platform false

abbrev pub start : State p
start = record { cached = []; repo = []; chain = [] }

abbrev pub any_credit : ListCreditsFilter
any_credit = record {
  methodology = none;
  geography = none;
  vintage_year = none;
  status = none;
  min_tonnes = none;
  max_tonnes = none;
  page = pos 1;
  limit = pos 10;
}
