-- ===== src/Cache/Tests.antt =====
-- The cache over a Redis in memory.
use carbonchain.Prelude.{refl, true, some, [], ◌∷◌}
use carbonchain.Cache.{Json, CacheService}
use carbonchain.Cache.Content.{JsonLaws}
use carbonchain.Cache.Memory.{Content}

abbrev connected : CacheService
connected = record { connected = true; default_ttl_seconds = 60 }

-- An encoding of the one value of a type.
abbrev one_json : Json (Unit {0})
one_json = record { stringify = λ _. "{}"; parse = λ _. some tt }

one_json_laws : JsonLaws one_json tt
one_json_laws = record { parse-stringify = refl; stringify-nonempty = refl }

abbrev full : Content
full = ("credits:1", ("x", 120)) ∷ ("credits:list:{}", ("y", 120)) ∷ []
