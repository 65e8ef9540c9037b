-- ===== src/Frontend/Store/Merging.antt =====
-- What the credit store holds after the answers to its requests: a map from ids to credits.
use carbonchain.Prelude.{
  String, ◌≡◌, refl, ap, ◌∙◌, inl, inr, Option, none, some, List, [], ◌∷◌, map, arith, ◌===◌,
  ===_iff, find, any, All, if◌then◌else◌, Bool-cases,
}
use carbonchain.Shared.{CreditMetadata}
use carbonchain.Frontend.{Outcome, fulfilled, rejected, Outcome-cases, promise_all, find-put}
use carbonchain.Frontend.Store.{
  CreditStore, empty_store, begin_load, end_load_by_project, merge, end_load_one, select, reset,
}

-- What happens to the store: its calls, and the answers to the requests that they made.
pub data Event : Type 0 where
  load_begins : Event
  project_answered : Outcome (List String) → (String → Outcome CreditMetadata) → Event
  one_answered : String → Outcome CreditMetadata → Event
  selects : Option String → Event
  resets : Event

pub step : Event → CreditStore → CreditStore
step load_begins s = begin_load s
step (project_answered ids answer) s = end_load_by_project ids answer s
step (one_answered id o) s = end_load_one id o s
step (selects id) s = select id s
step resets s = reset s

pub run : List Event → CreditStore → CreditStore
run [] s = s
run (e ∷ es) s = run es (step e s)

pub find_credit : String → List CreditMetadata → Option CreditMetadata
find_credit k cs = find (λ c. c.id === k) cs

-- The map that the store stands for.
abbrev pub View : Type 0
View = String → Option CreditMetadata

abbrev pub value_of : Outcome CreditMetadata → Option CreditMetadata
value_of (fulfilled c) = some c
value_of (rejected e) = none

-- The loads on the map: a project's credits replace it, one credit is put under its id, and what fails
-- changes nothing.
pub view_step : Event → View → View
view_step (project_answered (fulfilled ids) answer) v k = elim (promise_all (map answer ids)) [
  | fulfilled cs ↦ if any (λ id. id === k) ids then value_of (answer k) else none
  | rejected e ↦ v k
]
view_step (one_answered id (fulfilled c)) v k = if id === k then some c else v k
view_step resets v k = none
view_step _ v k = v k

pub view_run : List Event → View → View
view_run [] v = v
view_run (e ∷ es) v = view_run es (view_step e v)

-- The API answers a request for a credit with the credit of that id.
abbrev pub Answers : String → Outcome CreditMetadata → Type 0
Answers id (fulfilled c) = c.id ≡ id
Answers id (rejected e) = Unit

abbrev pub IsHonest : Event → Type 0
IsHonest (project_answered ids answer) = (id : String) → Answers id (answer id)
IsHonest (one_answered id o) = Answers id o
IsHonest _ = Unit

pub find-merge :
    (k id : String) (c : CreditMetadata) (xs : List CreditMetadata)
    → c.id ≡ id
    → find_credit k (merge id c xs) ≡ (if id === k then some c else find_credit k xs)
unfolding merge find_credit
find-merge k id c xs h = find-put (λ d. d.id) k id c xs h

own_id :
    (id : String) (o : Outcome CreditMetadata) {c : CreditMetadata}
    → Answers id o
    → o ≡ fulfilled c
    → c.id ≡ id
own_id id (fulfilled d) h e = ground arith
own_id id (rejected r) h e = cc

find-promise_all :
    (k : String) (answer : String → Outcome CreditMetadata) (ids : List String)
    (cs : List CreditMetadata)
    → ((id : String) → Answers id (answer id))
    → promise_all (map answer ids) ≡ fulfilled cs
    → find_credit k cs ≡ (if any (λ id. id === k) ids then value_of (answer k) else none)
unfolding find_credit
find-promise_all k answer [] cs h e = ground arith
find-promise_all k answer (id ∷ ids) cs h e =
    let own = h id in
    elim (Outcome-cases (answer id)) [
      | inr (r, a) ↦ absurd (ground (arith, a))
      | inl (c, a) ↦ elim (Outcome-cases (promise_all (map answer ids))) [
        | inr (r, b) ↦ absurd (ground (arith, a, b))
        | inl (rest, b) ↦
            let ih = find-promise_all k answer ids rest h b in
            let same = own_id id (answer id) own a in
            elim (Bool-cases (id === k)) [
              | inl t ↦ ground (arith, ===_iff id k, ===_iff c.id k)
              | inr t ↦ ground (arith, ===_iff id k, ===_iff c.id k)
            ]
      ]
    ]

step-refines :
    (e : Event) (s : CreditStore) (v : View)
    → IsHonest e
    → ((k : String) → find_credit k s.credits ≡ v k)
    → (k : String) → find_credit k (step e s).credits ≡ view_step e v k
unfolding step view_step begin_load end_load_by_project end_load_one select reset find_credit
step-refines load_begins s v h r k = r k
step-refines (selects id) s v h r k = r k
step-refines resets s v h r k = refl
step-refines (one_answered id (rejected e)) s v h r k = r k
step-refines (one_answered id (fulfilled c)) s v h r k =
    find-merge k id c s.credits h ∙ ap (λ o. if id === k then some c else o) (r k)
step-refines (project_answered (rejected e) answer) s v h r k = r k
step-refines (project_answered (fulfilled ids) answer) s v h r k =
    elim (Outcome-cases (promise_all (map answer ids))) [
      | inl (cs, e) ↦ rw (e, view_step, end_load_by_project) (find-promise_all k answer ids cs h e)
      | inr (x, e) ↦ rw (e, view_step, end_load_by_project) (r k)
    ]

run-refines_from :
    (es : List Event) (s : CreditStore) (v : View)
    → All IsHonest es
    → ((k : String) → find_credit k s.credits ≡ v k)
    → (k : String) → find_credit k (run es s).credits ≡ view_run es v k
unfolding run view_run
run-refines_from [] s v h r = r
run-refines_from (e ∷ es) s v (h, hs) r =
    run-refines_from es (step e s) (view_step e v) hs (step-refines e s v h r)

-- If the API answers every request for a credit with the credit of that id or with an error, the store
-- implements a map from ids to credits: after any calls, and answers to them in any order, the search
-- for an id finds what the map holds under it.
pub run-refines :
    (es : List Event) (k : String)
    → All IsHonest es
    → find_credit k (run es empty_store).credits ≡ view_run es (λ _. none) k
unfolding find_credit
run-refines es k h = run-refines_from es empty_store (λ _. none) h (λ _. refl) k
