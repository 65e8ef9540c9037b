-- ===== src/Events/Ledgers.antt =====
-- Which events the indexer can still see: one ledger number serves all contracts.
use carbonchain.Prelude.{ℕ, ◌≤◌, String, ◌≡◌, ◌⊎◌, inl, inr, refl, some, List, [], ◌∷◌, arith, All}
use carbonchain.Prelude.JsMap.{get, get-set}
use carbonchain.Events.{
  EventResponse, SorobanEvent, Indexer, State, max_ledger, events_or_none, event_key, soroban_event,
  get_contract_events, index_event, index_each, advance, index_contract_events,
}

module _ {V : Type 0} (x : Indexer V) where
  -- The events that an RPC server returns for a first ledger are of that ledger or later.
  abbrev pub FromStart : Type 0
  FromStart =
      (id : String) (start : ℕ) (r : x.Rpc)
      → All (λ e. start ≤ e.ledger) (events_or_none (x.rpc_events id start r).0)

  index_each-stored :
      (id : String) (es : List (EventResponse V)) (s : State x) (l : ℕ) (k : String)
      (v : SorobanEvent V)
      → All (λ e. l ≤ e.ledger) es
      → get k (index_each x id es s).service.events ≡ some v
      → (get k s.service.events ≡ some v) ⊎ (l ≤ v.ledger)
  unfolding index_each index_event soroban_event
  index_each-stored id [] s l k v h e = inl e
  index_each-stored id (r ∷ es) s l k v (h, hs) e =
      let stored =
        get-set (event_key id r) k (soroban_event x id r (x.world.clock s.hooks.env).0)
          s.service.events in
      elim (index_each-stored id es (index_event x id r s) l k v hs e) [
        | inl old ↦ grind (arith, stored)
        | inr new ↦ inr new
      ]

  advance-events :
      (es : List (EventResponse V)) (s : State x)
      → (advance x es s).service.events ≡ s.service.events
  unfolding advance
  advance-events [] s = refl
  advance-events (e ∷ es) s = refl

  advance-last_ledger :
      (es : List (EventResponse V)) (s : State x)
      → max_ledger es ≤ (advance x es s).service.last_ledger
  unfolding advance
  advance-last_ledger [] s = omega arith
  advance-last_ledger (e ∷ es) s = omega arith

  index_contract_events-stored :
      (id : String) (s : State x) (k : String) (v : SorobanEvent V)
      → FromStart
      → get k (index_contract_events x id s).service.events ≡ some v
      → (get k s.service.events ≡ some v) ⊎ (s.service.last_ledger ≤ v.ledger)
  unfolding index_contract_events get_contract_events
  index_contract_events-stored id s k v law e =
      let (es, r) = get_contract_events x id s.service.last_ledger s.rpc in
      index_each-stored id es (record s { rpc = r }) s.service.last_ledger k v
        (law id s.service.last_ledger s.rpc)
        (rw (advance-events es (index_each x id es (record s { rpc = r }))) at e)

  -- Two contracts share one ledger number. When the events of a first contract have been indexed,
  -- and the RPC server returns no event older than the ledger it is asked for, the events that are
  -- then stored for a second one are of the newest ledger of the first or later: what the second
  -- contract published before it is not stored.
  pub index_contract_events-skips :
      (first second : String) (s : State x) (k : String) (v : SorobanEvent V)
      → FromStart
      → get k (index_contract_events x second (index_contract_events x first s)).service.events
        ≡ some v
      → (get k (index_contract_events x first s).service.events ≡ some v)
        ⊎ (max_ledger (get_contract_events x first s.service.last_ledger s.rpc).0 ≤ v.ledger)
  unfolding index_contract_events get_contract_events
  index_contract_events-skips first second s k v law e =
      let (es, r) = get_contract_events x first s.service.last_ledger s.rpc in
      let newest = advance-last_ledger es (index_each x first es (record s { rpc = r })) in
      grind (
        arith,
        newest,
        index_contract_events-stored second (index_contract_events x first s) k v law e,
      )
