-- ===== src/Throttler/Window.antt =====
-- The fixed window of the throttler: how many requests of one key are admitted while a record is
-- live, whatever requests of other keys and other routes come in between.
use carbonchain.Prelude.{
  ℕ, ◌+◌, ◌-◌, ◌≤◌, ◌<◌, min, max, String, ◌≡◌, ◌≢◌, ◌↔◌, not, ◌∙◌, ◌⊎◌, inl, inr, Bool, true,
  false, ◌&&◌, Option, some, List, [], ◌∷◌, arith, ◌===◌, ===_iff, Bool-cases, Option-cases, ltb,
  leb, if◌then◌else◌, count, All,
}
use carbonchain.Prelude.JsMap.{JsMap, get, set, get-set_ne, get-set_self}
use carbonchain.Prelude.Results.{Result, ok, err, too_many_requests}
use carbonchain.Throttler.{
  ThrottleOptions, HitRecord, Request, throttle_key, options_of, check, can_activate,
}

-- A request with the options of its route and the time at which the guard sees it.
pub record Event : Type 0 where
  pub on_handler : Option ThrottleOptions
  pub on_class : Option ThrottleOptions
  pub req : Request
  pub now : ℕ

abbrev is_ok : Result Bool → Bool
is_ok (ok b) = b
is_ok (err e) = false

abbrev run_event : Event → JsMap HitRecord → Result Bool × JsMap HitRecord
run_event e store = can_activate e.on_handler e.on_class e.req e.now store

abbrev pub of_key : String → Event → Bool
of_key key e = throttle_key e.req === key

-- How many of the events of a key the guard lets through.
unfoldable pub admitted : String → List Event → JsMap HitRecord → ℕ
admitted key [] store = 0
admitted key (e ∷ es) store =
    let (r, store') = run_event e store in
    (if of_key key e && is_ok r then 1 else 0) + admitted key es store'

-- The events of the key belong to a route with the options `o` and come no later than `last`.
abbrev pub InWindow : String → ThrottleOptions → ℕ → Event → Type 0
InWindow key o last e =
    throttle_key e.req ≡ key → (options_of e.on_handler e.on_class ≡ some o) × (e.now ≤ last)

get-check_ne :
    (o : ThrottleOptions) (key k : String) (now : ℕ) (store : JsMap HitRecord)
    → k ≢ key
    → get key (check o k now store).1 ≡ get key store
unfolding check
get-check_ne o key k now store h = grind (arith, get-set_ne)

-- What a request does while the record of its key is live.
check_live :
    (o : ThrottleOptions) (key : String) (now : ℕ) (store : JsMap HitRecord) (r : HitRecord)
    → get key store ≡ some r
    → now ≤ r.reset_at
    → (o.limit ≤ r.count)
        × (check o key now store ≡ (err (too_many_requests "Too Many Requests"), store))
      ⊎ (r.count < o.limit)
        × (check o key now store ≡ (ok true, set key (record r { count = r.count + 1 }) store))
unfolding check
check_live o key now store r f h = ground arith

-- Requests of other keys leave the record of this one alone.
get-run_event_other :
    (key : String) (e : Event) (store : JsMap HitRecord)
    → throttle_key e.req ≢ key
    → get key (run_event e store).1 ≡ get key store
unfolding can_activate
get-run_event_other key e store h = grind (arith, get-check_ne)

-- An event of the key, with the options of its route found.
run_event_of_key :
    (o : ThrottleOptions) (key : String) (e : Event) (store : JsMap HitRecord)
    → throttle_key e.req ≡ key
    → options_of e.on_handler e.on_class ≡ some o
    → run_event e store ≡ check o key e.now store
unfolding can_activate
run_event_of_key o key e store k f = ground arith

admitted_live :
    (o : ThrottleOptions) (key : String) (es : List Event) (store : JsMap HitRecord) (r : HitRecord)
    → get key store ≡ some r
    → All (InWindow key o r.reset_at) es
    → admitted key es store ≡ min (count (of_key key) es) (o.limit - r.count)
unfolding admitted
admitted_live o key [] store r f h = omega arith
admitted_live o key (e ∷ es) store r f (h, hs) = elim (Bool-cases (of_key key e)) [
  | inl t ↦
      let k : throttle_key e.req ≡ key = (===_iff _ _).0 t in
      let (found, early) = h k in
      elim (check_live o key e.now store r f early) [
        | inl (full, step) ↦
            let same = run_event_of_key o key e store k found ∙ step in
            let ih = admitted_live o key es store r f hs in rw (t, same) (omega (arith, ih))
        | inr (room, step) ↦
            let same = run_event_of_key o key e store k found ∙ step in
            let r' : HitRecord = record r { count = r.count + 1 } in
            let ih = admitted_live o key es (set key r' store) r' (get-set_self key r' store) hs in
            rw (t, same) (omega (arith, ih))
      ]
  | inr t ↦
      let other : throttle_key e.req ≢ key =
        λ p. absurd (ground (arith, ===_iff (throttle_key e.req) key)) in
      let ih =
        admitted_live o key es (run_event e store).1 r (get-run_event_other key e store other ∙ f)
          hs in
      rw t (omega (arith, ih))
]

-- No record of the key, or one whose window is over.
abbrev pub IsFresh : String → ℕ → JsMap HitRecord → Type 0
IsFresh key now store = (r : HitRecord) → get key store ≡ some r → r.reset_at < now

check_fresh :
    (o : ThrottleOptions) (key : String) (now : ℕ) (store : JsMap HitRecord)
    → IsFresh key now store
    → check o key now store
      ≡ (ok true, set key (record { count = 1; reset_at = now + o.ttl }) store)
unfolding check
check_fresh o key now store h = elim (Option-cases (get key store)) [
  | inl f ↦ ground arith
  | inr (r, f) ↦ let over = h r f in ground arith
]

-- From a request that opens a window until the window ends, the guard admits exactly as many requests
-- of the key as the limit allows and at least that one, whatever requests with other keys, options
-- and times come in between.
pub admitted_window :
    (o : ThrottleOptions) (key : String) (e : Event) (es : List Event) (store : JsMap HitRecord)
    → throttle_key e.req ≡ key
    → options_of e.on_handler e.on_class ≡ some o
    → IsFresh key e.now store
    → All (InWindow key o (e.now + o.ttl)) es
    → admitted key (e ∷ es) store ≡ min (count (of_key key) (e ∷ es)) (max 1 o.limit)
unfolding admitted
admitted_window o key e es store k found fresh h =
    let r : HitRecord = record { count = 1; reset_at = e.now + o.ttl } in
    let same = run_event_of_key o key e store k found ∙ check_fresh o key e.now store fresh in
    let rest = admitted_live o key es (set key r store) r (get-set_self key r store) h in
    rw ((===_iff (throttle_key e.req) key).1 k, same) (omega (arith, rest))

-- Why the guard refuses: options, and a live record of the key with its limit used up.
abbrev pub UsedUp : Event → JsMap HitRecord → Type 0
UsedUp e store =
    (o : ThrottleOptions) × (r : HitRecord) × (options_of e.on_handler e.on_class ≡ some o)
    × (get (throttle_key e.req) store ≡ some r)
    × (e.now ≤ r.reset_at)
    × (o.limit ≤ r.count)

abbrev pub refusal : JsMap HitRecord → Result Bool × JsMap HitRecord
refusal store = (err (too_many_requests "Too Many Requests"), store)

can_activate-cases :
    (e : Event) (store : JsMap HitRecord)
    → ((run_event e store).0 ≡ ok true) × ¬ UsedUp e store
      ⊎ (run_event e store ≡ refusal store) × UsedUp e store
unfolding can_activate
can_activate-cases e store = elim (Option-cases (options_of e.on_handler e.on_class)) [
  | inl f ↦ inl (ground arith, λ u. cc (f, u.2))
  | inr (o, f) ↦ elim (Option-cases (get (throttle_key e.req) store)) [
    | inl g ↦ inl (ground (arith, f, g), λ u. cc (g, u.3))
    | inr (r, g) ↦ elim (Bool-cases (not (ltb r.reset_at e.now) && leb o.limit r.count)) [
      | inl t ↦ inr (ground arith, (o, r, f, g, ground arith, ground arith))
      | inr t ↦ inl (ground arith, λ u. let (o', r', f', g', early, full) = u in ground arith)
    ]
  ]
]

-- A request is let through or refused with 429. It is refused exactly when its route has options
-- and its key has a live record whose count has reached the limit; the store is then left as it is.
pub can_activate-refuses :
    (e : Event) (store : JsMap HitRecord)
    → ((run_event e store ≡ refusal store) ↔ UsedUp e store)
      × (((run_event e store).0 ≡ ok true) ↔ (¬ UsedUp e store))
can_activate-refuses e store = elim (can_activate-cases e store) [
  | inl (pass, live) ↦ ((λ h. cc, λ u. absurd (live u)), (λ _. live, λ _. pass))
  | inr (refused, used) ↦ ((λ _. used, λ _. refused), (λ h. cc, λ n. absurd (n used)))
]
