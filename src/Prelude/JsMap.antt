-- ===== src/Prelude/JsMap.antt =====
-- JavaScript's `Map` with text keys: an association list in insertion order. `set` on a present key
-- keeps its place, on a new key it appends.
use Prim.Native.String.{String}
use mathlib.Core.Path.{◌≡◌, refl}
use mathlib.Core.Logic.{◌⊎◌, inl, inr, ◌≢◌}
use mathlib.Core.List.{List, [], ◌∷◌, ◌++◌}
use mathlib.Core.Option
use mathlib.Core.Option.{Option, none, some}
use native.Mathlib.Omega.{arith}
use carbonchain.Prelude.Tests.{if◌then◌else◌, ◌===◌, ===_iff, ===_refl, Bool-cases, Option-cases}
use carbonchain.Prelude.Lists.{All}

abbrev pub JsMap {ℓ} : Type ℓ → Type ℓ
JsMap V = List (String × V)

module _ {ℓ} {V : Type ℓ} where
  abbrev pub get : String → JsMap V → Option V
  get k [] = none
  get k ((j, v) ∷ m) = if j === k then some v else get k m

  abbrev pub set : String → V → JsMap V → JsMap V
  set k v [] = (k, v) ∷ []
  set k v ((j, w) ∷ m) = if j === k then (j, v) ∷ m else (j, w) ∷ set k v m

  abbrev pub delete : String → JsMap V → JsMap V
  delete k [] = []
  delete k ((j, w) ∷ m) = if j === k then delete k m else (j, w) ∷ delete k m

  abbrev pub values : JsMap V → List V
  values [] = []
  values ((j, v) ∷ m) = v ∷ values m

  -- The effect of mutating the object stored under a key, if it is still stored.
  abbrev pub modify : String → (V → V) → JsMap V → JsMap V
  modify k f [] = []
  modify k f ((j, w) ∷ m) = if j === k then (j, f w) ∷ m else (j, w) ∷ modify k f m

  pub get-set :
      (k j : String) (v : V) (m : JsMap V)
      → get j (set k v m) ≡ (if k === j then some v else get j m)
  get-set k j v [] = refl
  get-set k j v ((i, w) ∷ m) =
      ground (arith, ===_iff k j, ===_iff i k, ===_iff i j, get-set k j v m)

  pub get-set_self : (k : String) (v : V) (m : JsMap V) → get k (set k v m) ≡ some v
  get-set_self k v m = ground (arith, get-set k k v m, ===_iff k k)

  pub get-set_ne : (k j : String) (v : V) (m : JsMap V) → k ≢ j → get j (set k v m) ≡ get j m
  get-set_ne k j v m h = ground (arith, get-set k j v m, ===_iff k j)

  pub get-modify :
      (k j : String) (f : V → V) (m : JsMap V)
      → get j (modify k f m) ≡ (if k === j then Option.map f (get j m) else get j m)
  get-modify k j f [] = ground arith
  get-modify k j f ((i, w) ∷ m) =
      ground (arith, ===_iff k j, ===_iff i k, ===_iff i j, get-modify k j f m)

  pub get-delete :
      (k j : String) (m : JsMap V) → get j (delete k m) ≡ (if k === j then none else get j m)
  get-delete k j [] = ground arith
  get-delete k j ((i, w) ∷ m) =
      ground (arith, ===_iff k j, ===_iff i k, ===_iff i j, get-delete k j m)

  -- What is found after a mutation was there before, mutated or not.
  pub get-modify_inv :
      (k j : String) (f : V → V) (m : JsMap V) {v : V}
      → get j (modify k f m) ≡ some v
      → (u : V) × (get j m ≡ some u) × (((k ≡ j) × (v ≡ f u)) ⊎ ((k ≢ j) × (v ≡ u)))
  get-modify_inv k j f m e = elim (Option-cases (get j m)) [
    | inl g ↦ absurd (ground (arith, get-modify k j f m))
    | inr (u, g) ↦ (u, g, ground (arith, get-modify k j f m, ===_iff k j))
  ]

  pub values-set_new :
      (k : String) (v : V) (m : JsMap V) → get k m ≡ none → values (set k v m) ≡ values m ++ v ∷ []
  values-set_new k v [] h = refl
  values-set_new k v ((i, w) ∷ m) h = ground (arith, values-set_new k v m)

  -- An object that is stored and then overwritten.
  pub modify-set : (k : String) (v w : V) (m : JsMap V) → modify k (λ _. w) (set k v m) ≡ set k w m
  modify-set k v w [] = rw (===_refl k)
  modify-set k v w ((i, u) ∷ m) = elim (Bool-cases (i === k)) [
    | inl e ↦ simp e
    | inr e ↦ simp (e, modify-set k v w m)
  ]

  module _ {κ} (P : V → Type κ) where
    pub All-values-set :
        (k : String) (v : V) (m : JsMap V) → P v → All P (values m) → All P (values (set k v m))
    All-values-set k v [] p h = (p, tt)
    All-values-set k v ((i, w) ∷ m) p (q, h) = elim (Bool-cases (i === k)) [
      | inl e ↦ rw e (p, h)
      | inr e ↦ rw e (q, All-values-set k v m p h)
    ]

    pub All-values-modify :
        (k : String) (f : V → V) (m : JsMap V)
        → ((v : V) → P v → P (f v))
        → All P (values m)
        → All P (values (modify k f m))
    All-values-modify k f [] keep h = tt
    All-values-modify k f ((i, w) ∷ m) keep (q, h) = elim (Bool-cases (i === k)) [
      | inl e ↦ rw e (keep w q, h)
      | inr e ↦ rw e (q, All-values-modify k f m keep h)
    ]

    pub All-values-delete :
        (k : String) (m : JsMap V) → All P (values m) → All P (values (delete k m))
    All-values-delete k [] h = tt
    All-values-delete k ((i, w) ∷ m) (q, h) = elim (Bool-cases (i === k)) [
      | inl e ↦ rw e (All-values-delete k m h)
      | inr e ↦ rw e (q, All-values-delete k m h)
    ]

    pub All-values-get :
        (k : String) (m : JsMap V) {v : V} → All P (values m) → get k m ≡ some v → P v
    All-values-get k [] h e = cc
    All-values-get k ((i, w) ∷ m) (q, h) e = elim (Bool-cases (i === k)) [
      | inl t ↦ ground arith
      | inr t ↦ All-values-get k m h (ground arith)
    ]
