-- ===== src/Credits/Service/Index.antt =====
-- The off-chain index behind the service: what an issued credit looks like when it is read, and what
-- the index can contain at all.
use carbonchain.Prelude.{
  ℕ, String, ◌≡◌, refl, ◌∙◌, ◌⊎◌, inl, inr, Option, none, some, List, [], ◌∷◌, arith, All,
}
use carbonchain.Prelude.JsMap.{values, get-set_self, All-values-set}
use carbonchain.Prelude.Results.{ok, Result-cases}
use carbonchain.Shared.{pending}
use carbonchain.Keypair.{get_admin_keypair}
use carbonchain.Cache.{cache_get}
use carbonchain.Credits.Repository.{CreditEntity, CreditStore, save, find_by_id}
use carbonchain.Credits.Listing.{ListCreditsFilter}
use carbonchain.Credits.Service.{
  IssueCreditDto, Platform, State, credit_key, entity_to_metadata, issued_entity, issue_args,
  returned_id, issue_credit, fetch_credit, get_credit, get_each, get_bulk_credits, list_fresh,
  list_credits, invalidate_credit_cache, list_credits_by_project, remember, on_chain, Call, issue,
  look_up, look_up_all, list_page, invalidate, list_of_project, step, run,
}

abbrev pub IsPending : CreditEntity → Type 0
IsPending e = e.status ≡ pending

found_saved :
    (dto : IssueCreditDto) (id : String) (now : ℕ) (repo : CreditStore)
    → find_by_id id (save (issued_entity dto id now) repo) ≡ some (issued_entity dto id now)
unfolding find_by_id save issued_entity
found_saved dto id now repo = get-set_self id _ repo

module _ (p : Platform) where
  -- The ways in which the index can come out of a call.
  issue_credit_repo :
      (dto : IssueCreditDto) (now : ℕ) (s : State p)
      → ((issue_credit p dto now s).1.repo ≡ s.repo)
        ⊎ ((id : String) × ((issue_credit p dto now s).1.repo
              ≡ save (issued_entity dto id now) s.repo))
  unfolding issue_credit on_chain
  issue_credit_repo dto now s = elim (Result-cases (issue_args p dto)) [
    | inr (e, f) ↦ inl (ground arith)
    | inl (args, f) ↦ elim (Result-cases (get_admin_keypair p.admin)) [
      | inr (e, g) ↦ inl (ground arith)
      | inl (signer, g) ↦
          let called =
            p.stellar.invoke_contract p.contract_id "submit_credit" args signer s.chain in
          elim (Result-cases called.0) [
            | inr (e, h) ↦ inl (ground arith)
            | inl (rv, h) ↦ elim (Result-cases (returned_id p rv)) [
              | inr (e, i) ↦ inl (ground arith)
              | inl (id, i) ↦ inr (id, ground arith)
            ]
          ]
    ]
  ]

  fetch_credit_repo : (id : String) (s : State p) → (fetch_credit p id s).1.repo ≡ s.repo
  unfolding fetch_credit on_chain remember
  fetch_credit_repo id s = ground arith

  get_credit_repo : (id : String) (s : State p) → (get_credit p id s).1.repo ≡ s.repo
  unfolding get_credit remember
  get_credit_repo id s = grind (arith, fetch_credit_repo)

  get_each_repo : (ids : List String) (s : State p) → (get_each p ids s).1.repo ≡ s.repo
  unfolding get_each
  get_each_repo [] s = refl
  get_each_repo (id ∷ ids) s = get_each_repo ids (get_credit p id s).1 ∙ get_credit_repo id s

  get_bulk_credits_repo :
      (ids : Option (List String)) (s : State p) → (get_bulk_credits p ids s).1.repo ≡ s.repo
  unfolding get_bulk_credits
  get_bulk_credits_repo none s = refl
  get_bulk_credits_repo (some ids) s = ground (arith, get_each_repo ids s)

  list_credits_repo : (f : ListCreditsFilter) (s : State p) → (list_credits p f s).1.repo ≡ s.repo
  unfolding list_credits list_fresh
  list_credits_repo f s = ground arith

  list_credits_by_project_repo :
      (project : String) (s : State p) → (list_credits_by_project p project s).1.repo ≡ s.repo
  unfolding list_credits_by_project on_chain
  list_credits_by_project_repo project s = ground arith

  issue_credit_ok :
      (dto : IssueCreditDto) (now : ℕ) (s : State p) (id : String)
      → (issue_credit p dto now s).0 ≡ ok id
      → (issue_credit p dto now s).1.repo ≡ save (issued_entity dto id now) s.repo
  unfolding issue_credit on_chain
  issue_credit_ok dto now s id h = ground arith

  -- A credit that is indexed and not cached is read from the index.
  pub get_credit-indexed :
      (id : String) (s : State p) {e : CreditEntity}
      → (cache_get p.redis p.credit_json p.cache (credit_key id) s.cached).0 ≡ none
      → find_by_id id s.repo ≡ some e
      → ((get_credit p id s).0 ≡ ok (entity_to_metadata e))
        × ((get_credit p id s).1.chain ≡ s.chain)
  unfolding get_credit remember
  get_credit-indexed id s miss found = ground arith

  -- A credit that was issued and is not cached is read back from the index, with the fields of the
  -- request and the status Pending; the contract is not asked.
  pub get_credit-issue_credit :
      (dto : IssueCreditDto) (now : ℕ) (s : State p) (id : String)
      → (issue_credit p dto now s).0 ≡ ok id
      → (cache_get p.redis p.credit_json p.cache
          (credit_key id)
          (issue_credit p dto now s).1.cached).0
        ≡ none
      → ((get_credit p id (issue_credit p dto now s).1).0
          ≡ ok (entity_to_metadata (issued_entity dto id now)))
        × ((get_credit p id (issue_credit p dto now s).1).1.chain
            ≡ (issue_credit p dto now s).1.chain)
  get_credit-issue_credit dto now s id issued miss =
      get_credit-indexed id (issue_credit p dto now s).1 miss
        (rw (issue_credit_ok dto now s id issued) (found_saved dto id now s.repo))

  -- Where the arguments can be built, the admin key is loaded and the contract call answers without
  -- a return value, as it does for a transaction that failed on the chain, a credit with the id
  -- `unknown` is reported as issued and is in the index with the data of the request.
  pub issue_credit-no_value :
      (dto : IssueCreditDto) (now : ℕ) (s : State p) (args : List p.sdk.ScVal)
      (signer : p.sdk.Keypair)
      → issue_args p dto ≡ ok args
      → get_admin_keypair p.admin ≡ ok signer
      → (p.stellar.invoke_contract p.contract_id "submit_credit" args signer s.chain).0 ≡ ok none
      → ((issue_credit p dto now s).0 ≡ ok "unknown")
        × (find_by_id "unknown" (issue_credit p dto now s).1.repo
            ≡ some (issued_entity dto "unknown" now))
  unfolding issue_credit on_chain returned_id
  issue_credit-no_value dto now s args signer made loaded called =
      (ground arith, ground (arith, found_saved dto "unknown" now s.repo))

  -- What a call does to the index: nothing, or the credit that was issued is put into it.
  pub step_repo :
      (c : Call p) (s : State p)
      → ((step p c s).repo ≡ s.repo)
        ⊎ ((dto : IssueCreditDto) × (now : ℕ) × (id : String) × ((step p c s).repo
              ≡ save (issued_entity dto id now) s.repo))
  unfolding step invalidate_credit_cache
  step_repo (issue dto now) s = elim (issue_credit_repo dto now s) [
    | inl e ↦ inl e
    | inr (id, e) ↦ inr (dto, now, id, e)
  ]
  step_repo (look_up id) s = inl (get_credit_repo id s)
  step_repo (look_up_all ids) s = inl (get_bulk_credits_repo ids s)
  step_repo (list_page f) s = inl (list_credits_repo f s)
  step_repo (invalidate id) s = inl refl
  step_repo (list_of_project project) s = inl (list_credits_by_project_repo project s)

  step-AllPending :
      (c : Call p) (s : State p)
      → All IsPending (values s.repo)
      → All IsPending (values (step p c s).repo)
  unfolding save issued_entity
  step-AllPending c s h = elim (step_repo c s) [
    | inl e ↦ rw e h
    | inr (dto, now, id, e) ↦ rw e (All-values-set IsPending id _ s.repo refl h)
  ]

  pub run-AllPending :
      (cs : List (Call p)) (s : State p)
      → All IsPending (values s.repo)
      → All IsPending (values (run p cs s).repo)
  unfolding run
  run-AllPending [] s h = h
  run-AllPending (c ∷ cs) s h = run-AllPending cs (step p c s) (step-AllPending c s h)
