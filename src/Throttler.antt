-- ===== src/Throttler.antt =====
-- api/src/common/throttler.guard.ts: the per-address rate limit, a fixed window for each key.
-- Options and times are natural numbers of milliseconds; the decorator's metadata lookup is an
-- argument, the options found on the handler and those found on the class.
pub mod Window
mod Tests
use carbonchain.Prelude.{
  ℕ, ◌+◌, String, ◌+++◌, Bool, true, Option, none, some, ltb, leb, if◌then◌else◌,
}
use carbonchain.Prelude.JsMap.{JsMap, get, set}
use carbonchain.Prelude.Results.{Result, ok, err, too_many_requests}
use carbonchain.Prelude.Text.{trim, before_comma}

pub record ThrottleOptions : Type 0 where
  pub limit : ℕ
  pub ttl : ℕ

pub record HitRecord : Type 0 where
  pub count : ℕ
  pub reset_at : ℕ

pub record Request : Type 0 where
  pub forwarded_for : Option String
  pub remote_address : Option String
  pub path : String

abbrev or_else : Option String → String → String
or_else none d = d
or_else (some a) d = a

-- The address that a request is counted under.
client_ip : Request → String
unfolding trim before_comma
client_ip req = elim req.forwarded_for [
  | some h ↦ trim (before_comma h)
  | none ↦ or_else req.remote_address "unknown"
]

pub throttle_key : Request → String
unfolding client_ip
throttle_key req = client_ip req +++ (":" +++ req.path)

-- `get(handler) ?? get(class)`
abbrev pub options_of : Option ThrottleOptions → Option ThrottleOptions → Option ThrottleOptions
options_of (some o) on_class = some o
options_of none on_class = on_class

-- The map lookup and the three outcomes for a request that carries options.
check : ThrottleOptions → String → ℕ → JsMap HitRecord → Result Bool × JsMap HitRecord
check o key now store = elim (get key store) [
  | none ↦ (ok true, set key (record { count = 1; reset_at = now + o.ttl }) store)
  | some r ↦
      if ltb r.reset_at now
      then (ok true, set key (record { count = 1; reset_at = now + o.ttl }) store)
      else if leb o.limit r.count
      then (err (too_many_requests "Too Many Requests"), store)
      else (ok true, set key (record r { count = r.count + 1 }) store)
]

pub can_activate :
    Option ThrottleOptions
    → Option ThrottleOptions
    → Request
    → ℕ
    → JsMap HitRecord
    → Result Bool × JsMap HitRecord
unfolding check
can_activate on_handler on_class req now store = elim (options_of on_handler on_class) [
  | none ↦ (ok true, store)
  | some o ↦ check o (throttle_key req) now store
]
