-- ===== src/Events/Triggers.antt =====
-- What the indexer posts for an event, seen before or not.
use carbonchain.Prelude.{ℕ, String, ◌≡◌, ◌∙◌, some, List, ◌++◌, map, filter}
use carbonchain.Prelude.JsMap.{get, values, get-set_self}
use carbonchain.Webhooks.{event, wants}
use carbonchain.Webhooks.Posts.{Post, Log, trigger_webhooks-posts}
use carbonchain.Events.{
  EventResponse, SorobanEvent, Indexer, State, parse_event_type, event_key, soroban_event,
  index_event,
}

module _ {V : Type 0} (x : Indexer V) (log : Log x.world) where
  open log use {sent, sent-clock}

  -- What the webhooks receive for an event at the time `now`.
  abbrev pub event_posts : String → EventResponse V → ℕ → State x → List (Post (SorobanEvent V))
  event_posts contract_id e now s =
      map
        (λ w. record {
          url = w.url;
          event_type = parse_event_type e;
          payload = event (soroban_event x contract_id e now);
        })
        (filter (wants (parse_event_type e)) (values s.hooks.svc.webhooks))

  -- Indexing an event stores it under its contract, ledger and id and posts it to every active webhook
  -- of its type. What is stored already makes no difference: an event that the RPC server returns
  -- again is posted again.
  pub index_event-posts :
      (contract_id : String) (e : EventResponse V) (s : State x)
      → (sent (index_event x contract_id e s).hooks.env
          ≡ sent s.hooks.env ++ event_posts contract_id e (x.world.clock s.hooks.env).0 s)
        × (get (event_key contract_id e) (index_event x contract_id e s).service.events
            ≡ some (soroban_event x contract_id e (x.world.clock s.hooks.env).0))
  unfolding index_event soroban_event
  index_event-posts contract_id e s = (
    trigger_webhooks-posts x.world log (parse_event_type e) _ _ ∙ rw sent-clock,
    get-set_self (event_key contract_id e) _ s.service.events,
  )
