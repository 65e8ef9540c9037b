-- ===== src/Events/Caching.antt =====
-- What the indexer drops from the cache.
use carbonchain.Prelude.{
  ℕ, String, ◌≡◌, refl, ◌∙◌, true, false, Option, none, some, List, [], ◌∷◌, arith, ◌===◌,
  if◌then◌else◌, is_empty, any,
}
use carbonchain.Prelude.JsMap.{get}
use carbonchain.Prelude.Results.{ok}
use carbonchain.Cache.Content.{RedisLaws}
use carbonchain.Cache.Laws.{cache_del_pattern_frame, cache_del_pattern_lem}
use carbonchain.Events.{
  EventResponse, Indexer, State, status_change_events, parse_event_type, parse_event_data,
  invalidate, soroban_event, index_event, index_each, advance, get_contract_events,
  index_contract_events, index_contracts, index_events,
}

-- The data that is kept of an event never has the field `credit_id`.
no_credit_id : {V : Type 0} (e : EventResponse V) → get "credit_id" (parse_event_data e) ≡ none
unfolding parse_event_data
no_credit_id e = refl

module _ {V : Type 0} (x : Indexer V) (laws : RedisLaws x.redis) where
  open laws use {content, matches}

  invalidate_frame :
      (contract_id : String) (e : EventResponse V) (now : ℕ) (c : x.redis.State) (j : String)
      → matches "credits:list:*" j ≡ false
      → content (invalidate x (soroban_event x contract_id e now) c) j ≡ content c j
  unfolding invalidate soroban_event parse_event_data
  invalidate_frame contract_id e now c j h =
      ground (arith, cache_del_pattern_frame x.redis laws x.cache "credits:list:*" j c h)

  index_each_frame :
      (contract_id : String) (es : List (EventResponse V)) (s : State x) (j : String)
      → matches "credits:list:*" j ≡ false
      → content (index_each x contract_id es s).cached j ≡ content s.cached j
  unfolding index_each index_event
  index_each_frame contract_id [] s j h = refl
  index_each_frame contract_id (e ∷ es) s j h =
      index_each_frame contract_id es (index_event x contract_id e s) j h
      ∙ invalidate_frame contract_id e (x.world.clock s.hooks.env).0 s.cached j h

  advance_cached : (es : List (EventResponse V)) (s : State x) → (advance x es s).cached ≡ s.cached
  unfolding advance
  advance_cached [] s = refl
  advance_cached (e ∷ es) s = refl

  index_contract_events_frame :
      (id : String) (s : State x) (j : String)
      → matches "credits:list:*" j ≡ false
      → content (index_contract_events x id s).cached j ≡ content s.cached j
  unfolding index_contract_events
  index_contract_events_frame id s j h =
      let (es, r) = get_contract_events x id s.service.last_ledger s.rpc in
      rw (advance_cached es (index_each x id es (record s { rpc = r })))
        (index_each_frame id es (record s { rpc = r }) j h)

  index_contracts_frame :
      (ids : List (Option String)) (s : State x) (j : String)
      → matches "credits:list:*" j ≡ false
      → content (index_contracts x ids s).cached j ≡ content s.cached j
  unfolding index_contracts
  index_contracts_frame [] s j h = refl
  index_contracts_frame (none ∷ ids) s j h = index_contracts_frame ids s j h
  index_contracts_frame (some id ∷ ids) s j h =
      index_contracts_frame ids (if is_empty id then s else index_contract_events x id s) j h
      ∙ ground (arith, index_contract_events_frame id s j h)

  -- After an event that changes the status of a credit no listing is cached any more, if Redis answers.
  pub index_event-drops_lists :
      (contract_id : String) (e : EventResponse V) (s : State x) (keys : List String) (j : String)
      → x.cache.connected ≡ true
      → any (λ t. t === parse_event_type e) status_change_events ≡ true
      → (x.redis.keys "credits:list:*" s.cached).0 ≡ ok keys
      → (x.redis.del keys (x.redis.keys "credits:list:*" s.cached).1).0 ≡ ok tt
      → matches "credits:list:*" j ≡ true
      → content (index_event x contract_id e s).cached j ≡ none
  unfolding index_event invalidate soroban_event
  index_event-drops_lists contract_id e s keys j on change found gone listed =
      rw (change, no_credit_id e)
        (cache_del_pattern_lem x.redis laws x.cache "credits:list:*" s.cached keys j on found gone
          ∙ rw listed)

  -- A run of the indexer changes no cache entry that does not match `credits:list:*`, whatever events
  -- it reads: the entry `credits:<id>` of a credit survives the event that retires or flags it.
  pub index_events-keeps_credit :
      (s : State x) (j : String)
      → matches "credits:list:*" j ≡ false
      → content (index_events x s).cached j ≡ content s.cached j
  unfolding index_events
  index_events-keeps_credit s j h = index_contracts_frame x.contract_ids s j h
