-- ===== src/Events/Tests.antt =====
-- The indexer at concrete inputs: an RPC server that holds two contracts' events.
use carbonchain.Prelude.{
  ℕ, ◌≤◌, leb, String, ◌≡◌, ◌⊎◌, refl, ◌++◌, true, Option, none, some, List, [], ◌∷◌, arith, ◌===◌,
  filter, All-mono, filter-All, map, if◌then◌else◌,
}
use carbonchain.Prelude.JsMap.{get, values}
use carbonchain.Prelude.Decimal.{decimal}
use carbonchain.Prelude.Results.{Result, ok}
use carbonchain.Cache.Memory.{memory, memory_laws}
use carbonchain.Webhooks.{Webhook, World}
use carbonchain.Webhooks.Posts.{Post, Log}
use carbonchain.Events.{
  Topic.text, EventResponse, SorobanEvent, Indexer, State, max_ledger, event_key, soroban_event,
  get_contract_events, index_event, index_each, index_contracts, index_contract_events,
  index_events, parse_event_type,
}
use carbonchain.Events.Caching.{index_events-keeps_credit}
use carbonchain.Events.Triggers.{event_posts, index_event-posts}
use carbonchain.Events.Ledgers.{FromStart, index_contract_events-skips}

abbrev Sent : Type 0
Sent = List (Post (SorobanEvent String))

-- Every post is accepted; the state is the time and what was posted.
abbrev world : World (SorobanEvent String)
world = record {
  State = ℕ × Sent;
  clock = λ s. (s.0, s);
  random = λ s. ("x", s);
  post = λ url ty p at s.
      (true, (s.0, s.1 ++ record { url = url; event_type = ty; payload = p } ∷ []));
  event_id = λ e. some e.id;
}

abbrev world_log : Log world
world_log = record {
  sent = λ s. s.1;
  sent-clock = λ s. refl;
  sent-random = λ s. refl;
  sent-post = λ url ty p at s. refl;
}

abbrev retired : ℕ → EventResponse String
retired l = record {
  id = "e";
  ledger = l;
  topic = some (text "CreditRetired" ∷ []);
  value = some "0a";
}

abbrev published : String → List (EventResponse String)
published id = if id === "CREG" then retired 9 ∷ [] else retired 5 ∷ []

abbrev rpc : String → ℕ → Unit {0} → Result (Option (List (EventResponse String))) × Unit {0}
rpc id start r = (ok (some (filter (λ e. leb start e.ledger) (published id))), r)

abbrev indexer : Indexer String
indexer = record {
  Rpc = Unit;
  rpc_events = rpc;
  redis = memory;
  cache = record { connected = true; default_ttl_seconds = 60 };
  world = world;
  show = λ f. "";
  contract_ids = some "CREG" ∷ none ∷ some "CRET" ∷ [];
}

abbrev hook : Webhook
hook = record {
  id = "h";
  url = "https://a";
  events = "CreditRetired" ∷ [];
  active = true;
  created_at = 0;
  last_triggered_at = none;
  failure_count = 0;
}

abbrev start : State indexer
start = record {
  service = record { last_ledger = 0; events = [] };
  hooks = record {
    svc = record { webhooks = ("h", hook) ∷ []; deliveries = [] };
    env = (1000, []);
  };
  cached = ("credits:0a", ("{}", 120)) ∷ ("credits:list:{}", ("[]", 60)) ∷ [];
  rpc = tt;
}

indexing : Unit {0}
unfolding index_event index_contract_events index_events index_each get_contract_events
    soroban_event event_key index_contracts decimal parse_event_type
indexing = tt

-- The retirement of the credit `0a` is indexed and its cached entry stays.
index_events-keeps_credit_example :
    get "credits:0a" (index_events indexer start).cached ≡ some ("{}", 120)
index_events-keeps_credit_example =
    index_events-keeps_credit indexer memory_laws start "credits:0a" refl

index_event-posts_example :
    ((index_event indexer "CREG" (retired 9) start).hooks.env.1
      ≡ event_posts indexer world_log "CREG" (retired 9) 1000 start)
    × (get
          (event_key "CREG" (retired 9))
          (index_event indexer "CREG" (retired 9) start).service.events
        ≡ some (soroban_event indexer "CREG" (retired 9) 1000))
index_event-posts_example = index_event-posts indexer world_log "CREG" (retired 9) start

from_start : FromStart indexer
from_start id l r =
    All-mono (filter (λ e. leb l e.ledger) (published id)) (λ e h. ground arith)
      (filter-All (λ e. leb l e.ledger) (published id))

-- The event of ledger 5 is never stored, that of ledger 9 is.
stored : map (λ e. e.ledger) (values (index_events indexer start).service.events) ≡ 9 ∷ []
unfolding indexing
stored = refl

abbrev after : State indexer
after = index_contract_events indexer "CREG" start

abbrev kept : SorobanEvent String
kept = soroban_event indexer "CREG" (retired 9) 1000

index_contract_events-skips_example :
    (get "CREG-9-e" after.service.events ≡ some kept)
    ⊎ (max_ledger (get_contract_events indexer "CREG" 0 tt).0 ≤ kept.ledger)
unfolding indexing
index_contract_events-skips_example =
    index_contract_events-skips indexer "CREG" "CRET" start "CREG-9-e" kept from_start refl
