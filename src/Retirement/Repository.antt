-- ===== src/Retirement/Repository.antt =====
-- api/src/retirement/retirement.entity.ts and retirement.repository.ts: the index of retirements, its
-- interface `IRetirementRepository` with the laws that the service relies on, and the in-memory
-- implementation.
use carbonchain.Prelude.{ℕ, String, ◌≡◌, ◌≢◌, Option, some, filter, ◌===◌}
use carbonchain.Prelude.Int.{ℤ}
use carbonchain.Prelude.JsMap.{JsMap, get, set, values, get-set_self, get-set_ne}
use carbonchain.Prelude.Results.{Result, ok, err, Exception}
use carbonchain.Paging.{PageResult, paginate}

pub record RetirementEntity : Type 0 where
  pub id : String
  pub credit_id : String
  pub buyer : String
  pub tonnes_retired : String
  pub reason : String
  pub retired_at : ℕ
  pub tx_hash : String

-- A `save` may fail; the reads leave the store as it is.
pub record RetirementRepository : Type 1 where
  pub Store : Type 0
  pub save : RetirementEntity → Store → Result RetirementEntity × Store
  pub find_by_id : String → Store → Result (Option RetirementEntity)
  pub find_by_buyer : String → ℤ → ℤ → Store → Result (PageResult RetirementEntity)
  pub find_all : ℤ → ℤ → Store → Result (PageResult RetirementEntity)

-- What a repository promises: a saved record is found until another record is saved under its id, and
-- a `save` that fails changes nothing.
pub record RepositoryLaws (r : RetirementRepository) : Type 0 where
  pub stored : r.Store → String → Option RetirementEntity
  pub save_ok :
      (e v : RetirementEntity) (s : r.Store)
      → (r.save e s).0 ≡ ok v
      → stored (r.save e s).1 e.id ≡ some e
  pub save_frame :
      (e : RetirementEntity) (s : r.Store) (j : String)
      → e.id ≢ j
      → stored (r.save e s).1 j ≡ stored s j
  pub save_err :
      (e : RetirementEntity) (s : r.Store) (j : String) (x : Exception)
      → (r.save e s).0 ≡ err x
      → stored (r.save e s).1 j ≡ stored s j
  pub find_by_id_ok :
      (id : String) (s : r.Store) (v : Option RetirementEntity)
      → r.find_by_id id s ≡ ok v
      → v ≡ stored s id

-- `InMemoryRetirementRepository`
abbrev pub in_memory : RetirementRepository
in_memory = record {
  Store = JsMap RetirementEntity;
  save = λ e s. (ok e, set e.id e s);
  find_by_id = λ id s. ok (get id s);
  find_by_buyer =
      λ buyer page limit s. ok (paginate (filter (λ r. r.buyer === buyer) (values s)) page limit);
  find_all = λ page limit s. ok (paginate (values s) page limit);
}

pub ok_injective : {A : Type 0} {x y : A} → ok x ≡ ok y → y ≡ x
ok_injective e = cc

pub no_error : {A C : Type 0} {x : A} {e : Exception} → ok x ≡ err e → C
no_error e = cc

abbrev pub in_memory_laws : RepositoryLaws in_memory
in_memory_laws = record {
  stored = λ s id. get id s;
  save_ok = λ e v s h. get-set_self e.id e s;
  save_frame = λ e s j h. get-set_ne e.id j e s h;
  save_err = λ e s j x h. no_error h;
  find_by_id_ok = λ id s v h. ok_injective h;
}
