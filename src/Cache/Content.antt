-- ===== src/Cache/Content.antt =====
-- What Redis documents of its commands: they read and write the content that is stored under keys.
use carbonchain.Prelude.{
  ℕ, String, ◌≡◌, ◌≢◌, ◌↔◌, Bool, true, false, Option, none, some, List, ◌===◌, any,
}
use mathlib.Core.Option
use carbonchain.Prelude.Results.{ok}
use carbonchain.Cache.{Redis, Json}

-- The content of a key is the text stored under it and the time to live that it was stored with.
-- Expiry happens between commands and is no part of these laws. A command leaves the keys that it
-- does not name as they are, also when it fails; what it does to its own keys is known only when it
-- succeeds.
pub record RedisLaws (r : Redis) : Type 0 where
  pub content : r.State → String → Option (String × ℕ)
  pub matches : String → String → Bool
  pub get_ok :
      (k : String) (s : r.State) (v : Option String)
      → (r.get k s).0 ≡ ok v
      → v ≡ Option.map (λ c. c.0) (content s k)
  pub get_frame : (k j : String) (s : r.State) → content (r.get k s).1 j ≡ content s j
  pub set_ok :
      (k v : String) (ttl : ℕ) (s : r.State)
      → (r.set k v ttl s).0 ≡ ok tt
      → content (r.set k v ttl s).1 k ≡ some (v, ttl)
  pub set_frame :
      (k v : String) (ttl : ℕ) (s : r.State) (j : String)
      → k ≢ j
      → content (r.set k v ttl s).1 j ≡ content s j
  pub del_ok :
      (ks : List String) (s : r.State) (j : String)
      → (r.del ks s).0 ≡ ok tt
      → any (λ k. k === j) ks ≡ true
      → content (r.del ks s).1 j ≡ none
  pub del_frame :
      (ks : List String) (s : r.State) (j : String)
      → any (λ k. k === j) ks ≡ false
      → content (r.del ks s).1 j ≡ content s j
  pub keys_ok :
      (p : String) (s : r.State) (ks : List String) (j : String)
      → (r.keys p s).0 ≡ ok ks
      → (any (λ k. k === j) ks ≡ true) ↔ ((matches p j ≡ true) × (content s j ≢ none))
  pub keys_frame : (p j : String) (s : r.State) → content (r.keys p s).1 j ≡ content s j

-- What JSON guarantees of a value of plain data that is cached.
pub record JsonLaws {A : Type 0} (j : Json A) (a : A) : Type 0 where
  pub parse-stringify : j.parse (j.stringify a) ≡ some a
  pub stringify-nonempty : (j.stringify a === "") ≡ false
