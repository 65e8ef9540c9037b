-- ===== src/Retirement/Service/Tests.antt =====
-- The retirement service at concrete inputs.
use carbonchain.Prelude.{String, ◌≡◌, refl, Option, none, some, List, [], ◌∷◌}
use carbonchain.Prelude.Results.{ok, err, error, Exception}
use carbonchain.Keypair.{get_admin_keypair}
use carbonchain.Credits.Listing.{parse_big_int}
use carbonchain.Paging.{paginate}
use carbonchain.Retirement.Repository.{
  RetirementEntity, RetirementRepository, RepositoryLaws, in_memory, in_memory_laws,
}
use carbonchain.Retirement.Service.{
  Platform, State, entity_to_record, retired_entity, retired_event, retire_on_chain,
  record_retirement, retire, get_retirement, read_retirement, indexed_or_read, verify_certificate,
  Call, retirement, verification, step, run,
}
use carbonchain.Retirement.Service.Ordering.{
  EmittedStored, run-EmittedStored, retire-save_fails, get_retirement-retire,
}
use carbonchain.Retirement.Service.Sample.{recorded, dto, platform, p, start}

retiring : Unit {0}
unfolding retire retire_on_chain record_retirement get_retirement read_retirement indexed_or_read
    step run get_admin_keypair parse_big_int verify_certificate entity_to_record paginate
retiring = tt

retire_test :
    (retire p dto 1700000000 start).0
    ≡ ok (record { retirement_id = "0a"; certificate_ipfs_hash = "" })
unfolding retiring
retire_test = refl

abbrev calls : List (Call p)
calls = retirement dto 1700000000 ∷ verification "0a" ∷ []

run-EmittedStored_example : EmittedStored p in_memory_laws recorded (run p calls start)
run-EmittedStored_example = run-EmittedStored p in_memory_laws recorded calls start tt

get_retirement-retire_example :
    ((retire p dto 1700000000 start).1.bus ≡ retired_event dto "0a" 1700000000 ∷ [])
    × (get_retirement p "0a" (retire p dto 1700000000 start).1 ≡ (
      ok (entity_to_record (retired_entity dto "0a" 1700000000)),
      (retire p dto 1700000000 start).1,
    ))
unfolding retiring
get_retirement-retire_example =
    get_retirement-retire p in_memory_laws recorded dto 1700000000 start
      (record { retirement_id = "0a"; certificate_ipfs_hash = "" })
      (some (retired_entity dto "0a" 1700000000)) refl refl

-- A repository that cannot be written.
abbrev read_only : RetirementRepository
read_only = record {
  Store = Unit;
  save = λ e s. (err (error "read only"), s);
  find_by_id = λ id s. ok none;
  find_by_buyer = λ buyer page limit s. ok (paginate [] page limit);
  find_all = λ page limit s. ok (paginate [] page limit);
}

not_err : {A C : Type 0} {x : A} {e : Exception} → err e ≡ ok x → C
not_err e = cc

none_found : {v : Option RetirementEntity} → ok none ≡ ok v → v ≡ none
none_found e = cc

abbrev read_only_laws : RepositoryLaws read_only
read_only_laws = record {
  stored = λ s id. none;
  save_ok = λ e v s h. not_err h;
  save_frame = λ e s j h. refl;
  save_err = λ e s j x h. refl;
  find_by_id_ok = λ id s v h. none_found h;
}

abbrev q : Platform
q = platform read_only

abbrev start_read_only : State q
start_read_only = record { chain = []; store = tt; bus = [] }

retire-save_fails_example :
    ((retire q dto 1700000000 start_read_only).0 ≡ err (error "read only"))
    × ((retire q dto 1700000000 start_read_only).1.bus ≡ [])
    × ((j : String) → ◌≡◌ {A = Option RetirementEntity} none none)
    × ((retire q dto 1700000000 start_read_only).1.chain ≡ "retire" ∷ [])
unfolding retiring
retire-save_fails_example =
    retire-save_fails q read_only_laws recorded dto 1700000000 start_read_only "0a"
      (error "read only") refl refl

abbrev two_buyers : in_memory.Store
two_buyers =
    ("0a", retired_entity dto "0a" 1)
    ∷ ("0b", retired_entity (record dto { buyer_public_key = "GOTHER" }) "0b" 2)
    ∷ []

abbrev own : List RetirementEntity
own = retired_entity dto "0a" 1 ∷ []
