-- ===== src/Projects/Sample.antt =====
-- A pinning service and a request that the tests use.
use carbonchain.Prelude.{ℕ, suc, String, none, []}
use carbonchain.Prelude.Results.{err, error}
use carbonchain.Projects.{Pinning, Config, ProjectRequest, State}

-- A pinning service that is down; the state counts the attempts.
abbrev pub down : Pinning String
down = record {
  State = ℕ;
  random = λ n. ("abc", n);
  pin = λ url key secret d n. (err (error "down"), suc n);
}

abbrev pub config : Config
config = record { api_key = none; secret_key = none; api_url = none }

abbrev pub start : State down config
start = record { projects = []; outside = 0 }

abbrev pub request : ProjectRequest String
request = record {
  name = "Forest";
  developer = "GDEV";
  description = "";
  location = "NG";
  methodology = "VCS";
  documents = none;
}
