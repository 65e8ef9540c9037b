-- ===== src/Cache.antt =====
-- api/src/common/cache.service.ts: the Redis cache that turns every failure into a miss.
-- The Redis client and the JSON encoding of the cached types are parameters.
pub mod Content
pub mod Laws
pub mod Memory
mod Tests
use carbonchain.Prelude.{
  ℕ, String, Bool, true, false, Option, none, some, List, [], ◌∷◌, ◌===◌, if◌then◌else◌, is_empty,
  length, ◌==◌,
}
use carbonchain.Prelude.Results.{Result, ok, err}

-- The commands that the service sends; each may fail, and may change the store when it does.
pub record Redis : Type 1 where
  pub State : Type 0
  pub connect : String → State → Result (Unit {0}) × State
  pub get : String → State → Result (Option String) × State
  pub set : String → String → ℕ → State → Result (Unit {0}) × State
  pub del : List String → State → Result (Unit {0}) × State
  pub keys : String → State → Result (List String) × State

-- `JSON.stringify` and `JSON.parse` (`none` where it throws) at the type of a cached value.
pub record Json (A : Type 0) : Type 0 where
  pub stringify : A → String
  pub parse : String → Option A

-- `connected` says that the client is not null.
pub record CacheService : Type 0 where
  pub connected : Bool
  pub default_ttl_seconds : ℕ

abbrev pub or_default : Option ℕ → ℕ → ℕ
or_default none d = d
or_default (some t) d = t

-- `raw ? JSON.parse(raw) : null` inside the `try`
abbrev pub read_raw : {A : Type 0} → Json A → Result (Option String) → Option A
read_raw j (err e) = none
read_raw j (ok none) = none
read_raw j (ok (some raw)) = if is_empty raw then none else j.parse raw

abbrev is_ok : Result (Unit {0}) → Bool
is_ok (ok _) = true
is_ok (err _) = false

module _ (r : Redis) where
  open r use {State}

  -- `connect()`: the service that results, by the configured REDIS_URL.
  pub connect : Option String → CacheService → State → CacheService × State
  connect none c s = (c, s)
  connect (some url) c s = elim (is_empty url) [
    | true ↦ (c, s)
    | false ↦ let (answer, s') = r.connect url s in (record c { connected = is_ok answer }, s')
  ]

  unfoldable pub cache_get :
      {A : Type 0} → Json A → CacheService → String → State → Option A × State
  cache_get j c key s =
      let (raw, s') = r.get key s in if c.connected then (read_raw j raw, s') else (none, s)

  unfoldable pub cache_set :
      {A : Type 0} → Json A → CacheService → String → A → Option ℕ → State → State
  cache_set j c key value ttl s =
      let (_, s') = r.set key (j.stringify value) (or_default ttl c.default_ttl_seconds) s in
      if c.connected then s' else s

  unfoldable pub cache_del : CacheService → List String → State → State
  cache_del c keys s =
      let (_, s') = r.del keys s in if c.connected then if length keys == 0 then s else s' else s

  del_found : Result (List String) × State → State
  del_found (err _, s) = s
  del_found (ok keys, s) = let (_, s') = r.del keys s in if length keys == 0 then s else s'

  unfoldable pub cache_del_pattern : CacheService → String → State → State
  unfolding del_found
  cache_del_pattern c pattern s = if c.connected then del_found (r.keys pattern s) else s
