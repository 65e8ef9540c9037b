-- ===== src/Cache/Laws.antt =====
-- The cache through its own operations: what is set is got, what is deleted is gone, and nothing else
-- changes.
use carbonchain.Prelude.Results.{ok}
use carbonchain.Prelude.{
  ℕ, String, ◌≡◌, ◌≢◌, true, false, Option, none, some, List, [], ◌∷◌, arith, ◌===◌, ===_iff,
  if◌then◌else◌, any,
}
use carbonchain.Cache.{
  Redis, Json, CacheService, or_default, cache_get, cache_set, cache_del, cache_del_pattern,
  del_found,
}
use carbonchain.Cache.Content.{RedisLaws, JsonLaws}

module _ (r : Redis) (laws : RedisLaws r) (c : CacheService) where
  open laws use {
    content, matches, get_ok, get_frame, set_ok, set_frame, del_ok, del_frame, keys_ok, keys_frame,
  }

  -- What is stored is what a read answers, if Redis answers.
  pub cache_get_found :
      {A : Type 0} (j : Json A) (k : String) (a : A) (ttl : ℕ) (s : r.State) (v : Option String)
      → JsonLaws j a
      → c.connected ≡ true
      → content s k ≡ some (j.stringify a, ttl)
      → (r.get k s).0 ≡ ok v
      → (cache_get r j c k s).0 ≡ some a
  unfolding cache_get
  cache_get_found j k a ttl s v jl on stored answered =
      let found = get_ok k s v answered in
      let v_eq : v ≡ some (j.stringify a) = rw stored at found in
      let full = jl.stringify-nonempty in rw (on, answered, v_eq, full) jl.parse-stringify

  -- With a client, a value that survives its JSON text and that Redis takes is what the next read
  -- of its key answers, if Redis answers that; it is stored with the time to live that was asked
  -- for or the default one, and no other key changes.
  pub cache_get-cache_set :
      {A : Type 0} (j : Json A) (k i : String) (a : A) (ttl : Option ℕ) (s : r.State)
      (v : Option String)
      → JsonLaws j a
      → c.connected ≡ true
      → (r.set k (j.stringify a) (or_default ttl c.default_ttl_seconds) s).0 ≡ ok tt
      → (r.get k (cache_set r j c k a ttl s)).0 ≡ ok v
      → ((cache_get r j c k (cache_set r j c k a ttl s)).0 ≡ some a)
        × (content (cache_set r j c k a ttl s) i ≡ (
            if k === i
            then some (j.stringify a, or_default ttl c.default_ttl_seconds)
            else content s i))
  unfolding cache_set
  cache_get-cache_set j k i a ttl s v jl on took answered =
      let life = or_default ttl c.default_ttl_seconds in
      let stored = set_ok k (j.stringify a) life s took in
      let whole : content (cache_set r j c k a ttl s) k ≡ some (j.stringify a, life) =
        rw on stored in
      (
        cache_get_found j k a life (cache_set r j c k a ttl s) v jl on whole answered,
        ground (arith, stored, on, ===_iff k i, set_frame k (j.stringify a) life s i),
      )

  cache_set_frame :
      {A : Type 0} (j : Json A) (k i : String) (a : A) (ttl : Option ℕ) (s : r.State)
      → k ≢ i
      → content (cache_set r j c k a ttl s) i ≡ content s i
  unfolding cache_set
  cache_set_frame j k i a ttl s h =
      ground (arith, set_frame k (j.stringify a) (or_default ttl c.default_ttl_seconds) s i h)

  pub cache_del_frame :
      (ks : List String) (i : String) (s : r.State)
      → any (λ k. k === i) ks ≡ false
      → content (cache_del r c ks s) i ≡ content s i
  unfolding cache_del
  cache_del_frame ks i s h = ground (arith, del_frame ks s i h)

  -- A key that does not match the pattern survives, whatever Redis answers.
  pub cache_del_pattern_frame :
      (p i : String) (s : r.State)
      → matches p i ≡ false
      → content (cache_del_pattern r c p s) i ≡ content s i
  unfolding cache_del_pattern del_found
  cache_del_pattern_frame p i s h = grind (arith, del_frame, keys_ok, keys_frame)

  found_gone :
      (p : String) (s : r.State) (ks : List String) (j : String)
      → (r.keys p s).0 ≡ ok ks
      → (r.del ks (r.keys p s).1).0 ≡ ok tt
      → content (del_found r (r.keys p s)) j ≡ (if matches p j then none else content s j)
  unfolding del_found
  found_gone p s [] j found gone = ground (arith, keys_ok p s [] j found, keys_frame p j s)
  found_gone p s (k ∷ ks) j found gone = ground (
    arith,
    keys_ok p s (k ∷ ks) j found,
    keys_frame p j s,
    del_ok (k ∷ ks) (r.keys p s).1 j gone,
    del_frame (k ∷ ks) (r.keys p s).1 j,
  )

  -- With a client that answers, the keys that match the pattern are gone and every other key is as it
  -- was.
  pub cache_del_pattern_lem :
      (p : String) (s : r.State) (ks : List String) (j : String)
      → c.connected ≡ true
      → (r.keys p s).0 ≡ ok ks
      → (r.del ks (r.keys p s).1).0 ≡ ok tt
      → content (cache_del_pattern r c p s) j ≡ (if matches p j then none else content s j)
  unfolding cache_del_pattern
  cache_del_pattern_lem p s ks j on found gone = rw on (found_gone p s ks j found gone)
