-- ===== src/Credits/Service/Ids.antt =====
-- A credit is answered under its own id.
use carbonchain.Prelude.{
  String, ◌≡◌, inl, inr, some, List, [], ◌∷◌, arith, ◌===◌, ===_iff, Option-cases, Bool-cases,
}
use carbonchain.Prelude.JsMap.{get-set}
use carbonchain.Prelude.Results.{ok}
use carbonchain.Shared.{CreditMetadata}
use carbonchain.Cache.{cache_get}
use carbonchain.Credits.Repository.{CreditEntity, CreditStore, save, find_by_id}
use carbonchain.Credits.Service.{
  Platform, State, credit_key, entity_to_metadata, issued_entity, map_to_credit_metadata, remember,
  fetch_credit, on_chain, get_credit, Call, step, run,
}
use carbonchain.Credits.Service.Index.{step_repo}

-- Every indexed credit is under its id.
abbrev pub IsKeyed : CreditStore → Type 0
IsKeyed repo = (k : String) (e : CreditEntity) → find_by_id k repo ≡ some e → e.id ≡ k

save-IsKeyed : (c : CreditEntity) (repo : CreditStore) → IsKeyed repo → IsKeyed (save c repo)
unfolding save find_by_id
save-IsKeyed c repo h k e found = elim (Bool-cases (c.id === k)) [
  | inl t ↦ ground (arith, get-set c.id k c repo, ===_iff c.id k)
  | inr t ↦ h k e (ground (arith, get-set c.id k c repo))
]

pub nil-IsKeyed : IsKeyed []
unfolding find_by_id
nil-IsKeyed k e found = cc

module _ (p : Platform) where
  step-IsKeyed : (c : Call p) (s : State p) → IsKeyed s.repo → IsKeyed (step p c s).repo
  step-IsKeyed c s h = elim (step_repo p c s) [
    | inl e ↦ rw e h
    | inr (dto, now, id, e) ↦ rw e (save-IsKeyed (issued_entity dto id now) s.repo h)
  ]

  pub run-IsKeyed : (cs : List (Call p)) (s : State p) → IsKeyed s.repo → IsKeyed (run p cs s).repo
  unfolding run
  run-IsKeyed [] s h = h
  run-IsKeyed (c ∷ cs) s h = run-IsKeyed cs (step p c s) (step-IsKeyed c s h)

  map_to_credit_metadata-id :
      (id : String) (n : p.sdk.Any) (m : CreditMetadata)
      → map_to_credit_metadata p id n ≡ ok m
      → m.id ≡ id
  unfolding map_to_credit_metadata
  map_to_credit_metadata-id id n m h = ground arith

  fetch_credit-id :
      (id : String) (s : State p) (m : CreditMetadata) → (fetch_credit p id s).0 ≡ ok m → m.id ≡ id
  unfolding fetch_credit on_chain remember
  fetch_credit-id id s m h = ground (arith, map_to_credit_metadata-id id)

  -- What is cached for the id, if anything, is a credit of that id.
  abbrev pub IsCachedOwn : String → State p → Type 0
  IsCachedOwn id s =
      (m : CreditMetadata)
      → (cache_get p.redis p.credit_json p.cache (credit_key id) s.cached).0 ≡ some m
      → m.id ≡ id

  pub get_credit-id :
      (id : String) (s : State p) (m : CreditMetadata)
      → IsKeyed s.repo
      → IsCachedOwn id s
      → (get_credit p id s).0 ≡ ok m
      → m.id ≡ id
  unfolding get_credit remember entity_to_metadata
  get_credit-id id s m keyed own h =
      let r = cache_get p.redis p.credit_json p.cache (credit_key id) s.cached in
      elim (Option-cases r.0) [
        | inr (c, e) ↦ own m (ground arith)
        | inl e ↦ elim (Option-cases (find_by_id id s.repo)) [
          | inr (c, f) ↦ let same = keyed id c f in ground arith
          | inl f ↦ fetch_credit-id id (record s { cached = r.1 }) m (ground arith)
        ]
      ]
