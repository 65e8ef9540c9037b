-- ===== src/Credits/Service.antt =====
-- api/src/credits/credits.service.ts. The contract, Redis, the JSON encodings and `toLowerCase` are
-- parameters; the current time in seconds is an argument. Log lines have no effect and are left out,
-- and so is the field `creditsCache`, which nothing reads.
mod Data
pub mod ReadOnly
pub mod Reads
pub mod Index
pub mod Ids
pub mod FailedTransaction
mod Tests
pub mod Sample
unfoldable pub use Data.*
use carbonchain.Prelude.{
  ℕ, String, ◌+++◌, Bool, true, false, Option, none, some, List, [], ◌∷◌, map, length, ltb, ◌==◌,
  if◌then◌else◌,
}
use carbonchain.Prelude.Int.{ℤ, pos}
use carbonchain.Prelude.Results.{
  Result, ok, err, error, bad_request, not_found, Io, ◌>>=◌, pure, throw, lift, ◌>>?◌, or_throw,
}
use carbonchain.Shared.{CreditStatus, pending, CreditMetadata}
use carbonchain.External.{Native, text, number, integer, bytes, Sdk, Stellar}
use carbonchain.Keypair.{get_admin_keypair}
use carbonchain.Cache.{
  Redis, Json, CacheService, cache_get, cache_set, cache_del, cache_del_pattern,
}
use carbonchain.Paging.{PageResult, paginate}
use carbonchain.Credits.Repository.{CreditEntity, CreditStore, save, find_by_id, find_all}
use carbonchain.Credits.Listing.{
  ListCreditsFilter, with_default_status, parse_big_int, apply_filters,
}

module _ (p : Platform) where
  open p use {sdk, stellar, redis, credit_json, page_json, filter_json, contract_id, cache}

  pub record State : Type 0 where
    pub cached : redis.State
    pub repo : CreditStore
    pub chain : stellar.Chain

  on_chain : {A : Type 0} → Io stellar.Chain A → Io State A
  on_chain m s = let (r, c) = m s.chain in (r, record s { chain = c })

  pub issue_args : IssueCreditDto → Result (List sdk.ScVal)
  issue_args dto = sdk.native_to_sc_val (text dto.issuer_public_key) "address" >>? λ a1.
      sdk.native_to_sc_val (text dto.project_id) "string" >>? λ a2.
      sdk.native_to_sc_val (number dto.vintage_year) "u32" >>? λ a3.
      sdk.native_to_sc_val (text dto.methodology) "string" >>? λ a4.
      sdk.native_to_sc_val (text dto.geography) "string" >>? λ a5. parse_big_int dto.tonnes >>? λ t.
      sdk.native_to_sc_val (integer t) "i128" >>? λ a6.
      sdk.native_to_sc_val (text dto.ipfs_hash) "string" >>? λ a7.
      ok (a1 ∷ a2 ∷ a3 ∷ a4 ∷ a5 ∷ a6 ∷ a7 ∷ [])

  -- The hex text of the returned bytes, `unknown` without a return value.
  returned_id : Option sdk.ScVal → Result String
  returned_id none = ok "unknown"
  returned_id (some rv) = sdk.sc_val_to_native rv >>? sdk.to_hex

  unfoldable pub issue_credit : IssueCreditDto → ℕ → Io State String
  unfolding on_chain issue_args returned_id
  issue_credit dto now = do
    args ← lift (issue_args dto)
    signer ← lift (get_admin_keypair p.admin)
    rv ← on_chain (stellar.invoke_contract contract_id "submit_credit" args signer)
    credit_id ← lift (returned_id rv)
    λ s. (ok credit_id, record s { repo = save (issued_entity dto credit_id now) s.repo })

  map_to_credit_metadata : String → sdk.Any → Result CreditMetadata
  map_to_credit_metadata id n = sdk.field "project_id" n >>? λ project_id.
      sdk.field "issuer" n >>? λ issuer. sdk.field "vintage_year" n >>? λ vintage_year.
      sdk.field "methodology" n >>? λ methodology. sdk.field "geography" n >>? λ geography.
      sdk.field "tonnes" n >>? λ tonnes. sdk.field "ipfs_hash" n >>? λ ipfs_hash.
      sdk.field "status" n >>? λ status. sdk.field "issued_at" n >>? λ issued_at. ok (record {
        id = id;
        project_id = sdk.to_string project_id;
        issuer = sdk.to_string issuer;
        vintage_year = sdk.to_number vintage_year;
        methodology = sdk.to_string methodology;
        geography = sdk.to_string geography;
        tonnes = sdk.to_string tonnes;
        ipfs_hash = sdk.to_string ipfs_hash;
        status = sdk.to_status status;
        issued_at = sdk.to_number issued_at;
      })

  -- `cache.set(CREDIT_KEY(id), metadata, CREDIT_TTL)`, then the metadata is returned.
  remember : String → CreditMetadata → Io State CreditMetadata
  remember id m s = (
    ok m,
    record s {
      cached = cache_set redis credit_json cache (credit_key id) m (some credit_ttl) s.cached;
    },
  )

  -- Step 3 of `getCredit`; the `catch` logs and throws the same error again.
  fetch_credit : String → Io State CreditMetadata
  unfolding on_chain map_to_credit_metadata remember
  fetch_credit id = do
    arg ← lift (sdk.native_to_sc_val (bytes (sdk.from_hex id)) "bytes")
    retval ← on_chain (stellar.read_contract contract_id "get_credit" (arg ∷ []))
    value ←
        lift (or_throw retval (not_found ("Credit with ID " +++ (id +++ " not found on-chain"))))
    native ← lift (sdk.sc_val_to_native value)
    metadata ← lift (map_to_credit_metadata id native)
    remember id metadata

  pub get_credit : String → Io State CreditMetadata
  get_credit id s =
      let (hit, c) = cache_get redis credit_json cache (credit_key id) s.cached in
      let s1 = record s { cached = c } in
      elim hit [
        | some m ↦ (ok m, s1)
        | none ↦ elim (find_by_id id s.repo) [
          | some e ↦ remember id (entity_to_metadata e) s1
          | none ↦ fetch_credit id s1
        ]
      ]

  abbrev pub push_ok : Result CreditMetadata → List CreditMetadata → List CreditMetadata
  push_ok (ok m) ms = m ∷ ms
  push_ok (err e) ms = ms

  -- The loop of `getBulkCredits`: an id that fails is skipped.
  get_each : List String → State → List CreditMetadata × State
  get_each [] s = ([], s)
  get_each (id ∷ ids) s =
      let (r, s1) = get_credit id s in let (ms, s2) = get_each ids s1 in (push_ok r ms, s2)

  pub get_bulk_credits : Option (List String) → Io State (List CreditMetadata)
  unfolding get_each
  get_bulk_credits none s = (err (bad_request "Credit IDs array cannot be empty"), s)
  get_bulk_credits (some ids) s =
      if length ids == 0
      then (err (bad_request "Credit IDs array cannot be empty"), s)
      else if ltb 100 (length ids)
      then (err (bad_request "Maximum 100 credits per bulk request"), s)
      else (let (ms, s1) = get_each ids s in (ok ms, s1))

  -- The rest of `listCredits` after a cache miss, with the key of the listing.
  list_fresh : String → ListCreditsFilter → Io State (PageResult CreditMetadata)
  list_fresh key f s =
      let all = map entity_to_metadata (find_all (pos 1) (pos 1000000) s.repo).items in
      elim (apply_filters p.to_lower_case f all) [
        | err e ↦ (err e, s)
        | ok filtered ↦
            let result = paginate filtered f.page f.limit in
            (
              ok result,
              record s {
                cached = cache_set redis page_json cache key result (some credit_ttl) s.cached;
              },
            )
      ]

  unfoldable pub list_credits : ListCreditsFilter → Io State (PageResult CreditMetadata)
  unfolding list_fresh
  list_credits filter s =
      let f = with_default_status filter in
      let key = list_credits_key (filter_json f) in
      let (hit, c) = cache_get redis page_json cache key s.cached in
      let s1 = record s { cached = c } in
      elim hit [ some result ↦ (ok result, s1) | none ↦ list_fresh key f s1 ]

  pub invalidate_credit_cache : String → State → State
  invalidate_credit_cache id s =
      let c1 = cache_del redis cache (credit_key id ∷ []) s.cached in
      record s { cached = cache_del_pattern redis cache list_pattern c1 }

  hex_all : List sdk.Any → Result (List String)
  hex_all [] = ok []
  hex_all (b ∷ bs) = sdk.to_hex b >>? λ h. hex_all bs >>? λ hs. ok (h ∷ hs)

  decode_ids : Option sdk.ScVal → Result (List String)
  unfolding hex_all
  decode_ids none = ok []
  decode_ids (some v) = sdk.sc_val_to_native v >>? λ n. sdk.items n >>? hex_all

  abbrev pub or_empty : Result (List String) → List String
  or_empty (ok ids) = ids
  or_empty (err e) = []

  pub list_credits_by_project : String → State → List String × State
  unfolding on_chain decode_ids
  list_credits_by_project project_id s =
      let m : Io State (List String) = do
        arg ← lift (sdk.native_to_sc_val (text project_id) "string")
        retval ← on_chain (stellar.read_contract contract_id "list_credits_by_project" (arg ∷ []))
        lift (decode_ids retval)
      in let (r, s1) = m s in (or_empty r, s1)

  -- The calls of the service.
  pub data Call : Type 0 where
    issue : IssueCreditDto → ℕ → Call
    look_up : String → Call
    look_up_all : Option (List String) → Call
    list_page : ListCreditsFilter → Call
    invalidate : String → Call
    list_of_project : String → Call

  unfoldable pub step : Call → State → State
  step (issue dto now) s = (issue_credit dto now s).1
  step (look_up id) s = (get_credit id s).1
  step (look_up_all ids) s = (get_bulk_credits ids s).1
  step (list_page f) s = (list_credits f s).1
  step (invalidate id) s = invalidate_credit_cache id s
  step (list_of_project project_id) s = (list_credits_by_project project_id s).1

  unfoldable pub run : List Call → State → State
  run [] s = s
  run (c ∷ cs) s = run cs (step c s)
