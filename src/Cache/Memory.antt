-- ===== src/Cache/Memory.antt =====
-- A Redis that keeps its content in a list and always answers: the laws can hold. Its patterns are
-- plain keys, and `credits:list:*`.
use carbonchain.Prelude.{
  ℕ, String, ◌≡◌, ◌≢◌, ◌↔◌, refl, Bool, true, false, ◌||◌, ◌&&◌, Option, none, List, [], ◌∷◌, arith,
  ◌===◌, ===_iff, if◌then◌else◌, any,
}
use mathlib.Core.Option
use text.Mathlib.Text.{starts_with}
use carbonchain.Prelude.JsMap.{JsMap, get, set, delete, get-set_self, get-set_ne, get-delete}
use carbonchain.Prelude.Results.{ok}
use carbonchain.Cache.{Redis}
use carbonchain.Cache.Content.{RedisLaws}

abbrev pub Content : Type 0
Content = JsMap (String × ℕ)

abbrev pub delete_all : List String → Content → Content
delete_all [] m = m
delete_all (k ∷ ks) m = delete_all ks (delete k m)

abbrev pub glob : String → String → Bool
glob p j = p === j || (p === "credits:list:*" && starts_with j "credits:list:")

abbrev pub keys_of : (String → Bool) → Content → List String
keys_of p [] = []
keys_of p ((k, v) ∷ m) = if p k then k ∷ keys_of p m else keys_of p m

abbrev pub memory : Redis
memory = record {
  State = Content;
  connect = λ url s. (ok tt, s);
  get = λ k s. (ok (Option.map (λ c. c.0) (get k s)), s);
  set = λ k v ttl s. (ok tt, set k (v, ttl) s);
  del = λ ks s. (ok tt, delete_all ks s);
  keys = λ p s. (ok (keys_of (glob p) s), s);
}

get-delete_all :
    (ks : List String) (j : String) (m : Content)
    → get j (delete_all ks m) ≡ (if any (λ k. k === j) ks then none else get j m)
get-delete_all [] j m = refl
get-delete_all (k ∷ ks) j m = ground (arith, get-delete_all ks j (delete k m), get-delete k j m)

any-keys_of :
    (p : String → Bool) (j : String) (m : Content)
    → any (λ k. k === j) (keys_of p m) ≡ (p j && any (λ e. e.0 === j) m)
any-keys_of p j [] = ground arith
any-keys_of p j ((k, v) ∷ m) = ground (arith, any-keys_of p j m, ===_iff k j)

any_iff_get : (j : String) (m : Content) → (any (λ e. e.0 === j) m ≡ true) ↔ (get j m ≢ none)
any_iff_get j [] = (λ h. cc, λ h. absurd (h refl))
any_iff_get j ((k, v) ∷ m) = ground (arith, any_iff_get j m)

pub memory-keys :
    (p : String) (s : Content) (ks : List String) (j : String)
    → ok (keys_of (glob p) s) ≡ ok ks
    → (any (λ k. k === j) ks ≡ true) ↔ ((glob p j ≡ true) × (get j s ≢ none))
memory-keys p s ks j e = ground (arith, any-keys_of (glob p) j s, any_iff_get j s)

pub memory-get :
    (k : String) (s : Content) (v : Option String)
    → ok (Option.map (λ c. c.0) (get k s)) ≡ ok v
    → v ≡ Option.map (λ c. c.0) (get k s)
memory-get k s v e = cc

pub memory-del_ok :
    (ks : List String) (s : Content) (j : String)
    → any (λ k. k === j) ks ≡ true
    → get j (delete_all ks s) ≡ none
memory-del_ok ks s j h = ground (arith, get-delete_all ks j s)

pub memory-del_frame :
    (ks : List String) (s : Content) (j : String)
    → any (λ k. k === j) ks ≡ false
    → get j (delete_all ks s) ≡ get j s
memory-del_frame ks s j h = ground (arith, get-delete_all ks j s)

abbrev pub memory_laws : RedisLaws memory
memory_laws = record {
  content = λ s k. get k s;
  matches = glob;
  get_ok = memory-get;
  get_frame = λ k j s. refl;
  set_ok = λ k v ttl s e. get-set_self k (v, ttl) s;
  set_frame = λ k v ttl s j h. get-set_ne k j (v, ttl) s h;
  del_ok = λ ks s j e h. memory-del_ok ks s j h;
  del_frame = memory-del_frame;
  keys_ok = memory-keys;
  keys_frame = λ p j s. refl;
}
