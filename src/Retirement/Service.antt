-- ===== src/Retirement/Service.antt =====
-- api/src/retirement/retirement.service.ts. The contract, the repository and the event emitter are
-- parameters; the current time in seconds is an argument.
pub mod Ordering
pub mod Certificates
mod Tests
pub mod Sample
use carbonchain.Prelude.{
  ℕ, String, ◌+++◌, Bool, true, Option, none, some, List, [], ◌∷◌, map, is_empty, if◌then◌else◌,
}
use carbonchain.Prelude.Int.{ℤ}
use carbonchain.Prelude.Results.{
  Result, ok, err, not_found, Io, ◌>>=◌, ◌>>◌, pure, lift, catch, throw, ◌>>?◌, or_throw,
}
use carbonchain.Shared.{RetirementRecord}
use carbonchain.External.{Native, text, integer, bytes, Sdk, Stellar}
use carbonchain.Keypair.{get_admin_keypair}
use carbonchain.Paging.{PageResult}
use carbonchain.Credits.Listing.{parse_big_int}
use carbonchain.Retirement.Repository.{RetirementEntity, RetirementRepository}

pub record RetireDto : Type 0 where
  pub buyer_public_key : String
  pub credit_id : String
  pub tonnes : String
  pub reason : String

pub record CertificateVerification : Type 0 where
  pub id : String
  pub credit_id : String
  pub buyer : String
  pub tonnes_retired : String
  pub reason : String
  pub retired_at : ℕ
  pub tx_hash : String
  pub verified : Bool
  pub ledger_sequence : Option ℕ

pub record CreditRetiredEvent : Type 0 where
  pub retirement_id : String
  pub credit_id : String
  pub buyer : String
  pub tonnes_retired : String
  pub retired_at : ℕ

-- The two fields of what `retire` returns.
pub record Receipt : Type 0 where
  pub retirement_id : String
  pub certificate_ipfs_hash : String

-- `IEventEmitter`; `emit` throws where a listener does.
pub record EventEmitter : Type 1 where
  pub Bus : Type 0
  pub emit : String → CreditRetiredEvent → Bus → Result Bool × Bus

pub entity_to_record : RetirementEntity → RetirementRecord
entity_to_record e = record {
  id = e.id;
  credit_id = e.credit_id;
  buyer = e.buyer;
  tonnes_retired = e.tonnes_retired;
  reason = e.reason;
  retired_at = e.retired_at;
  tx_hash = e.tx_hash;
}

abbrev pub retired_entity : RetireDto → String → ℕ → RetirementEntity
retired_entity dto id now = record {
  id = id;
  credit_id = dto.credit_id;
  buyer = dto.buyer_public_key;
  tonnes_retired = dto.tonnes;
  reason = dto.reason;
  retired_at = now;
  tx_hash = "";
}

abbrev pub retired_event : RetireDto → String → ℕ → CreditRetiredEvent
retired_event dto id now = record {
  retirement_id = id;
  credit_id = dto.credit_id;
  buyer = dto.buyer_public_key;
  tonnes_retired = dto.tonnes;
  retired_at = now;
}

-- `{ ...result, data: result.data.map(...) }`
abbrev pub records_of : PageResult RetirementEntity → PageResult RetirementRecord
records_of r = record {
  items = map entity_to_record r.items;
  total = r.total;
  page = r.page;
  limit = r.limit;
}

-- `retirement.tx_hash || ''` is the text itself.
abbrev pub certificate : RetirementRecord → CertificateVerification
certificate r = record {
  id = r.id;
  credit_id = r.credit_id;
  buyer = r.buyer;
  tonnes_retired = r.tonnes_retired;
  reason = r.reason;
  retired_at = r.retired_at;
  tx_hash = r.tx_hash;
  verified = true;
  ledger_sequence = none;
}

abbrev pub certificate_error : String → String
certificate_error id = "Certificate " +++ (id +++ " not found or cannot be verified")

-- What the service is built on.
pub record Platform : Type 1 where
  pub sdk : Sdk
  pub stellar : Stellar sdk
  pub repository : RetirementRepository
  pub emitter : EventEmitter
  pub admin : Option sdk.Keypair
  pub retirement_contract_id : String
  pub registry_contract_id : String

module _ (p : Platform) where
  open p use {sdk, stellar, repository, emitter, retirement_contract_id, registry_contract_id}

  pub record State : Type 0 where
    pub chain : stellar.Chain
    pub store : repository.Store
    pub bus : emitter.Bus

  abbrev pub on_chain : {A : Type 0} → Io stellar.Chain A → Io State A
  on_chain m s = let (r, c) = m s.chain in (r, record s { chain = c })

  abbrev pub save_entity : RetirementEntity → Io State RetirementEntity
  save_entity e s = let (r, t) = repository.save e s.store in (r, record s { store = t })

  abbrev pub emit_event : CreditRetiredEvent → Io State Bool
  emit_event e s = let (r, b) = emitter.emit "CreditRetired" e s.bus in (r, record s { bus = b })

  abbrev pub retire_args : RetireDto → Result (List sdk.ScVal)
  retire_args dto = sdk.native_to_sc_val (text dto.buyer_public_key) "address" >>? λ a1.
      sdk.native_to_sc_val (bytes (sdk.from_hex dto.credit_id)) "bytes" >>? λ a2.
      parse_big_int dto.tonnes >>? λ t. sdk.native_to_sc_val (integer t) "i128" >>? λ a3.
      sdk.native_to_sc_val (text dto.reason) "string" >>? λ a4.
      sdk.native_to_sc_val (text registry_contract_id) "address" >>? λ a5.
      ok (a1 ∷ a2 ∷ a3 ∷ a4 ∷ a5 ∷ [])

  -- The hex text of the returned bytes, `unknown` without a return value.
  abbrev pub retirement_id_of : Option sdk.ScVal → Result String
  retirement_id_of none = ok "unknown"
  retirement_id_of (some rv) = sdk.sc_val_to_native rv >>? sdk.to_hex

  -- The on-chain half of `retire`, up to the id.
  pub retire_on_chain : RetireDto → Io State String
  retire_on_chain dto = do
    args ← lift (retire_args dto)
    signer ← lift (get_admin_keypair p.admin)
    rv ← on_chain (stellar.invoke_contract retirement_contract_id "retire" args signer)
    lift (retirement_id_of rv)

  -- The rest: the record is written, then the event is emitted.
  pub record_retirement : RetireDto → ℕ → String → Io State Receipt
  record_retirement dto now id = do
    _ ← save_entity (retired_entity dto id now)
    _ ← emit_event (retired_event dto id now)
    pure (record { retirement_id = id; certificate_ipfs_hash = "" })

  pub retire : RetireDto → ℕ → Io State Receipt
  retire dto now = retire_on_chain dto >>= record_retirement dto now

  abbrev pub chain_record : String → sdk.Any → Result RetirementRecord
  chain_record id n = sdk.field "credit_id" n >>? λ credit_id.
      sdk.to_hex credit_id >>? λ credit_hex. sdk.field "buyer" n >>? λ buyer.
      sdk.field "tonnes_retired" n >>? λ tonnes_retired. sdk.field "reason" n >>? λ reason.
      sdk.field "retired_at" n >>? λ retired_at. ok (record {
        id = id;
        credit_id = credit_hex;
        buyer = sdk.to_string buyer;
        tonnes_retired = sdk.to_string tonnes_retired;
        reason = sdk.to_string reason;
        retired_at = sdk.to_number retired_at;
        tx_hash = "";
      })

  -- The fallback of `getRetirement`.
  pub read_retirement : String → Io State RetirementRecord
  read_retirement id = do
    arg ← lift (sdk.native_to_sc_val (bytes (sdk.from_hex id)) "bytes")
    retval ← on_chain (stellar.read_contract retirement_contract_id "get_retirement" (arg ∷ []))
    value ← lift (or_throw retval (not_found ("Retirement " +++ (id +++ " not found"))))
    n ← lift (sdk.sc_val_to_native value)
    lift (chain_record id n)

  pub indexed_or_read : String → Option RetirementEntity → Io State RetirementRecord
  indexed_or_read id none = read_retirement id
  indexed_or_read id (some e) = pure (entity_to_record e)

  pub get_retirement : String → Io State RetirementRecord
  get_retirement id s = (lift (repository.find_by_id id s.store) >>= indexed_or_read id) s

  pub list_retirements : ℤ → ℤ → Io State (PageResult RetirementRecord)
  list_retirements page limit s =
      (repository.find_all page limit s.store >>? λ r. ok (records_of r), s)

  pub get_retirements_by_account : String → ℤ → ℤ → Io State (PageResult RetirementRecord)
  get_retirements_by_account account page limit s =
      (repository.find_by_buyer account page limit s.store >>? λ r. ok (records_of r), s)

  pub verify_certificate : String → Io State CertificateVerification
  verify_certificate id =
      catch (get_retirement id >>= λ r. pure (certificate r))
        λ e. throw (not_found (certificate_error id))

  pub data Call : Type 0 where
    retirement : RetireDto → ℕ → Call
    look_up : String → Call
    list_page : ℤ → ℤ → Call
    list_of_account : String → ℤ → ℤ → Call
    verification : String → Call

  pub step : Call → State → State
  step (retirement dto now) s = (retire dto now s).1
  step (look_up id) s = (get_retirement id s).1
  step (list_page page limit) s = (list_retirements page limit s).1
  step (list_of_account account page limit) s = (get_retirements_by_account account page limit s).1
  step (verification id) s = (verify_certificate id s).1

  pub run : List Call → State → State
  run [] s = s
  run (c ∷ cs) s = run cs (step c s)
