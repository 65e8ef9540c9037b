-- ===== src/Events.antt =====
-- api/src/events/events.service.ts: the indexer that polls the contracts, keeps their events, drops
-- cached credits and triggers webhooks. The RPC server, Redis and the environment of the webhooks
-- are parameters; ledgers are natural numbers. Nothing in the two `try` blocks throws, so their
-- `catch` has no counterpart here.
pub mod Caching
pub mod Ledgers
pub mod Triggers
mod Tests
use carbonchain.Prelude.{
  ℕ, ◌/◌, ◌+◌, String, ◌+++◌, Bool, true, false, Option, none, some, List, [], ◌∷◌, map, length,
  ◌===◌, ◌==◌, if◌then◌else◌, is_empty, any, filter, max,
}
use carbonchain.Prelude.Decimal.{decimal}
use carbonchain.Prelude.Int.{ℤ, pos, ◌-ℤ◌}
use carbonchain.Prelude.Slice.{slice}
use carbonchain.Prelude.JsMap.{JsMap, get, set, values}
use carbonchain.Prelude.Results.{Result, ok, err}
use carbonchain.Cache.{Redis, CacheService, cache_del, cache_del_pattern}
use carbonchain.Webhooks.{World, Env, trigger_webhooks, retry_failed_deliveries}

-- A topic is a text or another value of the SDK.
pub data Topic (V : Type 0) : Type 0 where
  text : String → Topic V
  other : V → Topic V

pub record EventResponse (V : Type 0) : Type 0 where
  pub id : String
  pub ledger : ℕ
  pub topic : Option (List (Topic V))
  pub value : Option V

-- The values of the record `data`: the topics, the value, and the empty object.
pub data Field (V : Type 0) : Type 0 where
  topics : List (Topic V) → Field V
  content : V → Field V
  empty_object : Field V

pub record SorobanEvent (V : Type 0) : Type 0 where
  pub id : String
  pub type_name : String
  pub contract_id : String
  pub ledger : ℕ
  pub timestamp : ℕ
  pub fields : JsMap (Field V)

pub record EventsService (V : Type 0) : Type 0 where
  pub last_ledger : ℕ
  pub events : JsMap (SorobanEvent V)

abbrev pub status_change_events : List String
status_change_events = "CreditMinted" ∷ "CreditRetired" ∷ "CreditFlagged" ∷ "CreditRevoked" ∷ []

module _ {V : Type 0} where
  abbrev pub or_no_topics : Option (List (Topic V)) → List (Topic V)
  or_no_topics none = []
  or_no_topics (some ts) = ts

  abbrev pub first_text : List (Topic V) → String
  first_text (text t ∷ ts) = t
  first_text _ = "unknown"

  pub parse_event_type : EventResponse V → String
  parse_event_type e = first_text (or_no_topics e.topic)

  abbrev pub or_empty_object : Option V → Field V
  or_empty_object none = empty_object
  or_empty_object (some v) = content v

  pub parse_event_data : EventResponse V → JsMap (Field V)
  parse_event_data e =
      ("topic", topics (or_no_topics e.topic)) ∷ ("value", or_empty_object e.value) ∷ []

  pub event_key : String → EventResponse V → String
  event_key contract_id e = contract_id +++ ("-" +++ (decimal e.ledger +++ ("-" +++ e.id)))

  -- `Math.max(...events.map((e) => e.ledger))` of at least one event.
  abbrev pub max_ledger : List (EventResponse V) → ℕ
  max_ledger [] = 0
  max_ledger (e ∷ es) = max e.ledger (max_ledger es)

  by_contract : Option String → List (SorobanEvent V) → List (SorobanEvent V)
  by_contract none es = es
  by_contract (some id) es = if is_empty id then es else filter (λ e. e.contract_id === id) es

  by_type : Option String → List (SorobanEvent V) → List (SorobanEvent V)
  by_type none es = es
  by_type (some ty) es = if is_empty ty then es else filter (λ e. e.type_name === ty) es

  -- `filtered.slice(-limit)`
  pub get_events : Option String → Option String → ℤ → EventsService V → List (SorobanEvent V)
  unfolding by_contract by_type slice ◌-ℤ◌
  get_events contract_id event_type limit s =
      let filtered = by_type event_type (by_contract contract_id (values s.events)) in
      slice filtered (pos 0 -ℤ limit) (pos (length filtered))

  pub get_event_by_id : String → EventsService V → Option (SorobanEvent V)
  get_event_by_id id s = get id s.events

  pub clear_events : EventsService V → EventsService V
  clear_events s = record { last_ledger = 0; events = [] }

-- What the indexer is built on. `show` is the text of a field in a template literal.
pub record Indexer (V : Type 0) : Type 1 where
  pub Rpc : Type 0
  pub rpc_events : String → ℕ → Rpc → Result (Option (List (EventResponse V))) × Rpc
  pub redis : Redis
  pub cache : CacheService
  pub world : World (SorobanEvent V)
  pub show : Field V → String
  pub contract_ids : List (Option String)

-- `response.events || []`, and `[]` where the request fails.
abbrev pub events_or_none :
    {V : Type 0} → Result (Option (List (EventResponse V))) → List (EventResponse V)
events_or_none (ok (some es)) = es
events_or_none _ = []

module _ {V : Type 0} (x : Indexer V) where
  open x use {Rpc, rpc_events, redis, cache, world, show, contract_ids}

  pub record State : Type 0 where
    pub service : EventsService V
    pub hooks : Env world
    pub cached : redis.State
    pub rpc : Rpc

  -- `getContractEvents` of api/src/stellar/stellar.service.ts.
  pub get_contract_events : String → ℕ → Rpc → List (EventResponse V) × Rpc
  get_contract_events contract_id start_ledger r =
      let (answer, r') = rpc_events contract_id start_ledger r in (events_or_none answer, r')

  -- The cache entry of the credit that the event names, if it names one.
  drop_credit : Option (Field V) → redis.State → redis.State
  drop_credit none c = c
  drop_credit (some f) c =
      if is_empty (show f) then c else cache_del redis cache (("credits:" +++ show f) ∷ []) c

  -- What a status change drops from the cache.
  pub invalidate : SorobanEvent V → redis.State → redis.State
  unfolding drop_credit
  invalidate e c =
      if any (λ t. t === e.type_name) status_change_events
      then cache_del_pattern redis cache "credits:list:*" (drop_credit (get "credit_id" e.fields) c)
      else c

  pub soroban_event : String → EventResponse V → ℕ → SorobanEvent V
  soroban_event contract_id e now = record {
    id = event_key contract_id e;
    type_name = parse_event_type e;
    contract_id = contract_id;
    ledger = e.ledger;
    timestamp = now / 1000;
    fields = parse_event_data e;
  }

  -- One round of the loop of `indexContractEvents`.
  pub index_event : String → EventResponse V → State → State
  index_event contract_id e s =
      let (now, w) = world.clock s.hooks.env in
      let event = soroban_event contract_id e now in
      let hooks = record (s.hooks) { env = w } in
      record s {
        service = record (s.service) { events = set event.id event s.service.events };
        cached = invalidate event s.cached;
        hooks = trigger_webhooks world event.type_name event hooks;
      }

  pub index_each : String → List (EventResponse V) → State → State
  index_each contract_id [] s = s
  index_each contract_id (e ∷ es) s = index_each contract_id es (index_event contract_id e s)

  advance : List (EventResponse V) → State → State
  advance [] s = s
  advance es s = record s { service = record (s.service) { last_ledger = max_ledger es } }

  pub index_contract_events : String → State → State
  unfolding advance
  index_contract_events contract_id s =
      let (events, r) = get_contract_events contract_id s.service.last_ledger s.rpc in
      advance events (index_each contract_id events (record s { rpc = r }))

  pub index_contracts : List (Option String) → State → State
  index_contracts [] s = s
  index_contracts (none ∷ ids) s = index_contracts ids s
  index_contracts (some id ∷ ids) s =
      index_contracts ids (if is_empty id then s else index_contract_events id s)

  pub index_events : State → State
  index_events s =
      let t = index_contracts contract_ids s in
      record t { hooks = retry_failed_deliveries world t.hooks }
