-- ===== src/Credits/Service/Reads.antt =====
-- What the reads of the credit service answer: the listing against its specification, the bulk read,
-- and the cached read.
use carbonchain.Prelude.Int.{pos}
use carbonchain.Prelude.{
  ℕ, ◌≤◌, ◌<◌, String, ◌≡◌, refl, ◌∙◌, ◌⊎◌, inl, inr, ◌↔◌, true, false, Option, none, some, List,
  [], ◌∷◌, map, arith, length, ltb, ◌==◌, filter, filter_none, All, take_all, Option-cases,
  Bool-cases, ===_iff,
}
use carbonchain.Prelude.JsMap.{values}
use carbonchain.Prelude.Results.{ok, err, Result-cases, bad_request}
use carbonchain.Shared.{pending, active, status_text, CreditMetadata}
use carbonchain.Cache.{cache_get}
use carbonchain.Cache.Laws.{cache_get_found}
use carbonchain.Cache.Content.{RedisLaws, JsonLaws}
use carbonchain.Paging.{PageResult, paginate}
use carbonchain.Paging.Pages.{paginate-items, paginate-nil}
use carbonchain.Credits.Repository.{CreditEntity, CreditStore, find_all}
use carbonchain.Credits.Listing.{ListCreditsFilter, given, with_default_status, apply_filters}
use carbonchain.Credits.Listing.Matching.{Matches, wanted, wanted_iff, apply_filters-Matches}
use carbonchain.Credits.Service.{
  Platform, State, credit_key, list_credits_key, entity_to_metadata, get_credit, get_each,
  get_bulk_credits, list_fresh, list_credits, Call, run,
}
use carbonchain.Credits.Service.Index.{run-AllPending, IsPending}

find_all-items :
    (store : CreditStore)
    → length (values store) ≤ 1000000
    → (find_all (pos 1) (pos 1000000) store).items ≡ values store
unfolding find_all
find_all-items store h = paginate-items (values store) 0 1000000 ∙ take_all 1000000 (values store) h

-- The filter asks for the status that was given, and for active credits when none was.
abbrev pub StatusOf : ListCreditsFilter → ListCreditsFilter → Type 0
StatusOf f g =
    ((given f.status ≡ none) × (g.status ≡ some (status_text active)))
    ⊎ ((s : String) × (given f.status ≡ some s) × (g.status ≡ some s))

with_default_status-StatusOf : (f : ListCreditsFilter) → StatusOf f (with_default_status f)
unfolding with_default_status
with_default_status-StatusOf f = elim (Option-cases (given f.status)) [
  | inl e ↦ inl (e, ground arith)
  | inr (s, e) ↦ inr (s, e, ground arith)
]

with_default_status-paginate :
    (f : ListCreditsFilter) (cs : List CreditMetadata)
    → paginate cs (with_default_status f).page (with_default_status f).limit
      ≡ paginate cs f.page f.limit
unfolding with_default_status
with_default_status-paginate f cs = refl

-- With no status given, or Active, the filter asks for active credits.
given-with_default_status :
    (f : ListCreditsFilter)
    → (given f.status ≡ none) ⊎ (f.status ≡ some (status_text active))
    → given (with_default_status f).status ≡ some (status_text active)
unfolding with_default_status
given-with_default_status f (inl e) = ground arith
given-with_default_status f (inr e) = ground arith

-- A pending credit is not active.
pending_unwanted :
    (to_lower_case : String → String) (f : ListCreditsFilter) (es : List CreditEntity)
    → given f.status ≡ some (status_text active)
    → All IsPending es
    → All (λ c. wanted to_lower_case f c ≡ false) (map entity_to_metadata es)
unfolding entity_to_metadata
pending_unwanted lower f [] e h = tt
pending_unwanted lower f (c ∷ es) e (q, h) =
    elim (Bool-cases (wanted lower f (entity_to_metadata c))) [
      | inl t ↦
          let m = (wanted_iff lower f (entity_to_metadata c)).0 t in
          let same = m.status (status_text active) e in
          absurd (ground (arith, ===_iff (status_text pending) (status_text active)))
      | inr t ↦ (t, pending_unwanted lower f es e h)
    ]

module _ (p : Platform) where
  -- The key under which the cache holds a listing.
  abbrev pub listing_key : ListCreditsFilter → String
  listing_key f = list_credits_key (p.filter_json (with_default_status f))

  abbrev pub NotCached : ListCreditsFilter → State p → Type 0
  NotCached f s = (cache_get p.redis p.page_json p.cache (listing_key f) s.cached).0 ≡ none

  -- What the index holds, as the API shows it.
  abbrev pub indexed : State p → List CreditMetadata
  indexed s = map entity_to_metadata (values s.repo)

  list_fresh_ok :
      (key : String) (f : ListCreditsFilter) (s : State p) (page : PageResult CreditMetadata)
      → length (values s.repo) ≤ 1000000
      → (list_fresh p key f s).0 ≡ ok page
      → page ≡ paginate (filter (wanted p.to_lower_case f) (indexed s)) f.page f.limit
  unfolding list_fresh
  list_fresh_ok key f s page small h =
      let all = find_all-items s.repo small in
      elim (Result-cases (apply_filters p.to_lower_case f (indexed s))) [
        | inl (out, e) ↦
            let kept = (apply_filters-Matches p.to_lower_case f (indexed s) out e).0 in ground arith
        | inr (x, e) ↦ ground arith
      ]

  -- A listing that succeeds and is not cached, over an index of at most a million credits, is the
  -- asked-for page of exactly those indexed credits that match the filters, in the order of the index;
  -- when no status is given, of the active ones.
  pub list_credits-page :
      (f : ListCreditsFilter) (s : State p) (page : PageResult CreditMetadata)
      → length (values s.repo) ≤ 1000000
      → NotCached f s
      → (list_credits p f s).0 ≡ ok page
      → (page
          ≡ paginate
              (filter (wanted p.to_lower_case (with_default_status f)) (indexed s))
              f.page
              f.limit)
        × ((c : CreditMetadata)
            → (wanted p.to_lower_case (with_default_status f) c ≡ true)
              ↔ Matches p.to_lower_case (with_default_status f) c)
        × StatusOf f (with_default_status f)
  unfolding list_credits
  list_credits-page f s page small miss h =
      let fresh =
        list_fresh_ok (listing_key f) (with_default_status f)
          (record s { cached = (cache_get p.redis p.page_json p.cache (listing_key f) s.cached).1 })
          page small (ground arith) in
      (
        fresh ∙ with_default_status-paginate f _,
        (wanted_iff p.to_lower_case (with_default_status f)),
        with_default_status-StatusOf f,
      )

  -- Whatever calls have been made since the service was started with an empty index, a listing that
  -- succeeds, is not cached and asks for no status, or for Active, is empty, while the index has at
  -- most a million credits.
  pub list_credits-default_empty :
      (cs : List (Call p)) (s : State p) (f : ListCreditsFilter) (page : PageResult CreditMetadata)
      → values s.repo ≡ []
      → (given f.status ≡ none) ⊎ (f.status ≡ some (status_text active))
      → length (values (run p cs s).repo) ≤ 1000000
      → NotCached f (run p cs s)
      → (list_credits p f (run p cs s)).0 ≡ ok page
      → (page.items ≡ []) × (page.total ≡ 0)
  list_credits-default_empty cs s f page none_yet status small miss h =
      let t = run p cs s in
      let pending_all = run-AllPending p cs s (rw none_yet tt) in
      let asked = given-with_default_status f status in
      let none_left = filter_none (wanted p.to_lower_case (with_default_status f)) (indexed t) (
        pending_unwanted p.to_lower_case (with_default_status f) (values t.repo) asked
          pending_all) in
      let listed = (list_credits-page f t page small miss h).0 in
      let listed_none = rw none_left at listed in
      let (no_items, no_total) = paginate-nil {A = CreditMetadata} f.page f.limit in (cc, cc)

  -- `get_each` and its reads.
  length-get_each : (ids : List String) (s : State p) → length (get_each p ids s).0 ≤ length ids
  unfolding get_each
  length-get_each [] s = omega arith
  length-get_each (id ∷ ids) s = ground (arith, length-get_each ids (get_credit p id s).1)

  -- A bulk read is refused with 400 exactly when it names no id or more than 100; otherwise it never
  -- fails, whatever becomes of the single reads, and answers with at most one credit for each id.
  pub get_bulk_credits_lem :
      (ids : List String) (s : State p)
      → (((length ids ≡ 0) ⊎ (100 < length ids))
          × ((text : String) × (get_bulk_credits p (some ids) s ≡ (err (bad_request text), s))))
        ⊎ ((0 < length ids)
            × (length ids ≤ 100)
            × ((ms : List CreditMetadata) × ((get_bulk_credits p (some ids) s).0 ≡ ok ms)
                × (length ms ≤ length ids)))
  unfolding get_bulk_credits
  get_bulk_credits_lem ids s = elim (Bool-cases (length ids == 0)) [
    | inl t ↦ inl (inl (ground arith), ("Credit IDs array cannot be empty", rw t))
    | inr t ↦ elim (Bool-cases (ltb 100 (length ids))) [
      | inl u ↦ inl (inr (ground arith), ("Maximum 100 credits per bulk request", rw (t, u)))
      | inr u ↦
          inr (ground arith, ground arith, ((get_each p ids s).0, rw (t, u), length-get_each ids s))
    ]
  ]

  -- While Redis holds an entry for a credit and answers, the entry is what is read, whatever the index
  -- and the contract hold, and neither of them is asked or changed.
  pub get_credit-cached :
      (laws : RedisLaws p.redis) (id : String) (m : CreditMetadata) (ttl : ℕ) (s : State p)
      (answer : Option String)
      → JsonLaws p.credit_json m
      → p.cache.connected ≡ true
      → laws.content s.cached (credit_key id) ≡ some (p.credit_json.stringify m, ttl)
      → (p.redis.get (credit_key id) s.cached).0 ≡ ok answer
      → ((get_credit p id s).0 ≡ ok m)
        × ((get_credit p id s).1.repo ≡ s.repo)
        × ((get_credit p id s).1.chain ≡ s.chain)
  unfolding get_credit
  get_credit-cached laws id m ttl s answer json on stored answered =
      let hit =
        cache_get_found p.redis laws p.cache p.credit_json (credit_key id) m ttl s.cached answer
          json on stored answered in
      (ground arith, ground arith, ground arith)
