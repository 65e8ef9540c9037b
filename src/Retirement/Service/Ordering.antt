-- ===== src/Retirement/Service/Ordering.antt =====
-- The order in which `retire` writes the record and emits the event.
use carbonchain.Prelude.{
  ℕ, String, ◌≡◌, ◌≢◌, refl, ◌∙◌, inl, inr, Option, none, some, List, [], ◌∷◌, ◌++◌, arith, All,
  All-mono, All-append, ◌===◌, ===_iff, Bool-cases,
}
use carbonchain.Prelude.Results.{ok, err, Exception, Result-cases}
use carbonchain.Retirement.Repository.{RetirementEntity, RepositoryLaws}
use carbonchain.Retirement.Service.{
  RetireDto, CreditRetiredEvent, Receipt, EventEmitter, Platform, State, entity_to_record,
  retired_entity, retired_event, retire_on_chain, record_retirement, retire, get_retirement,
  read_retirement, indexed_or_read, list_retirements, get_retirements_by_account,
  verify_certificate, Call, retirement, look_up, list_page, list_of_account, verification, step,
  run,
}

-- What was emitted on a bus so far, also where a listener throws.
pub record Emitted (e : EventEmitter) : Type 0 where
  pub emitted : e.Bus → List CreditRetiredEvent
  pub emitted-emit :
      (name : String) (ev : CreditRetiredEvent) (b : e.Bus)
      → emitted (e.emit name ev b).1 ≡ emitted b ++ ev ∷ []

module _ (p : Platform) (laws : RepositoryLaws p.repository) (bus : Emitted p.emitter) where
  open laws use {stored}
  open bus use {emitted, emitted-emit}

  -- The record of an event is in the index.
  abbrev pub IsStored : p.repository.Store → CreditRetiredEvent → Type 0
  IsStored t ev = stored t ev.retirement_id ≢ none

  abbrev pub EmittedStored : State p → Type 0
  EmittedStored s = All (IsStored s.store) (emitted s.bus)

  save-IsStored :
      (e : RetirementEntity) (t : p.repository.Store) (ev : CreditRetiredEvent)
      → IsStored t ev
      → IsStored (p.repository.save e t).1 ev
  save-IsStored e t ev h = elim (Bool-cases (e.id === ev.retirement_id)) [
    | inr ne ↦ grind (arith, laws.save_frame e t ev.retirement_id, ===_iff e.id ev.retirement_id)
    | inl eq ↦ elim (Result-cases (p.repository.save e t).0) [
      | inl (v, f) ↦ grind (arith, laws.save_ok e v t f, ===_iff e.id ev.retirement_id)
      | inr (x, f) ↦ grind (arith, laws.save_err e t ev.retirement_id x f)
    ]
  ]

  retire_on_chain-store :
      (dto : RetireDto) (s : State p) → (retire_on_chain p dto s).1.store ≡ s.store
  unfolding retire_on_chain
  retire_on_chain-store dto s = ground arith

  retire_on_chain-bus : (dto : RetireDto) (s : State p) → (retire_on_chain p dto s).1.bus ≡ s.bus
  unfolding retire_on_chain
  retire_on_chain-bus dto s = ground arith

  record_retirement-saved :
      (dto : RetireDto) (now : ℕ) (id : String) (s : State p) (v : RetirementEntity)
      → (p.repository.save (retired_entity dto id now) s.store).0 ≡ ok v
      → ((record_retirement p dto now id s).1.store
          ≡ (p.repository.save (retired_entity dto id now) s.store).1)
        × ((record_retirement p dto now id s).1.bus
            ≡ (p.emitter.emit "CreditRetired" (retired_event dto id now) s.bus).1)
  unfolding record_retirement
  record_retirement-saved dto now id s v h = ground arith

  record_retirement-unsaved :
      (dto : RetireDto) (now : ℕ) (id : String) (s : State p) (x : Exception)
      → (p.repository.save (retired_entity dto id now) s.store).0 ≡ err x
      → ((record_retirement p dto now id s).0 ≡ err x)
        × ((record_retirement p dto now id s).1.store
            ≡ (p.repository.save (retired_entity dto id now) s.store).1)
        × ((record_retirement p dto now id s).1.bus ≡ s.bus)
        × ((record_retirement p dto now id s).1.chain ≡ s.chain)
  unfolding record_retirement
  record_retirement-unsaved dto now id s x h = ground arith

  record_retirement-EmittedStored :
      (dto : RetireDto) (now : ℕ) (id : String) (s : State p)
      → EmittedStored s
      → EmittedStored (record_retirement p dto now id s).1
  record_retirement-EmittedStored dto now id s h =
      let e = retired_entity dto id now in
      let kept = All-mono (emitted s.bus) (λ ev. save-IsStored e s.store ev) h in
      elim (Result-cases (p.repository.save e s.store).0) [
        | inr (x, f) ↦
            let (e0, e1, e2, e3) = record_retirement-unsaved dto now id s x f in rw (e1, e2) kept
        | inl (v, f) ↦
            let there : IsStored (p.repository.save e s.store).1 (retired_event dto id now) =
              grind (arith, laws.save_ok e v s.store f) in
            let (e1, e2) = record_retirement-saved dto now id s v f in
            rw (e1, e2, emitted-emit) (All-append _ (emitted s.bus) _ kept (there, tt))
      ]

  record_retirement-ok :
      (dto : RetireDto) (now : ℕ) (id : String) (s : State p) (receipt : Receipt)
      → (record_retirement p dto now id s).0 ≡ ok receipt
      → (receipt.retirement_id ≡ id)
        × ((v : RetirementEntity) × ((p.repository.save (retired_entity dto id now) s.store).0
              ≡ ok v))
  unfolding record_retirement
  record_retirement-ok dto now id s receipt h =
      elim (Result-cases (p.repository.save (retired_entity dto id now) s.store).0) [
        | inr (x, f) ↦ ground arith
        | inl (v, f) ↦ (ground arith, (v, f))
      ]

  get_retirement-store : (id : String) (s : State p) → (get_retirement p id s).1.store ≡ s.store
  unfolding get_retirement indexed_or_read read_retirement
  get_retirement-store id s = ground arith

  get_retirement-bus : (id : String) (s : State p) → (get_retirement p id s).1.bus ≡ s.bus
  unfolding get_retirement indexed_or_read read_retirement
  get_retirement-bus id s = ground arith

  get_retirement-found :
      (id : String) (s : State p) (e : RetirementEntity)
      → p.repository.find_by_id id s.store ≡ ok (some e)
      → get_retirement p id s ≡ (ok (entity_to_record e), s)
  unfolding get_retirement indexed_or_read
  get_retirement-found id s e h = rw h

  verify_certificate-store :
      (id : String) (s : State p) → (verify_certificate p id s).1.store ≡ s.store
  unfolding verify_certificate
  verify_certificate-store id s = ground (arith, get_retirement-store id s)

  verify_certificate-bus : (id : String) (s : State p) → (verify_certificate p id s).1.bus ≡ s.bus
  unfolding verify_certificate
  verify_certificate-bus id s = ground (arith, get_retirement-bus id s)

  retire-called :
      (dto : RetireDto) (now : ℕ) (s : State p) (id : String)
      → (retire_on_chain p dto s).0 ≡ ok id
      → retire p dto now s ≡ record_retirement p dto now id (retire_on_chain p dto s).1
  unfolding retire
  retire-called dto now s id h = rw h

  retire-uncalled :
      (dto : RetireDto) (now : ℕ) (s : State p) (x : Exception)
      → (retire_on_chain p dto s).0 ≡ err x
      → retire p dto now s ≡ (err x, (retire_on_chain p dto s).1)
  unfolding retire
  retire-uncalled dto now s x h = rw h

  retire-ok :
      (dto : RetireDto) (now : ℕ) (s : State p) (receipt : Receipt)
      → (retire p dto now s).0 ≡ ok receipt
      → (id : String) × ((retire_on_chain p dto s).0 ≡ ok id)
  retire-ok dto now s receipt h = elim (Result-cases (retire_on_chain p dto s).0) [
    | inl found ↦ found
    | inr (x, f) ↦ grind (arith, retire-uncalled dto now s x f)
  ]

  retire-EmittedStored :
      (dto : RetireDto) (now : ℕ) (s : State p)
      → EmittedStored s
      → EmittedStored (retire p dto now s).1
  retire-EmittedStored dto now s h =
      let t = (retire_on_chain p dto s).1 in
      let kept : EmittedStored t = rw (retire_on_chain-store dto s, retire_on_chain-bus dto s) h in
      elim (Result-cases (retire_on_chain p dto s).0) [
        | inl (id, e) ↦
            rw (retire-called dto now s id e) (record_retirement-EmittedStored dto now id t kept)
        | inr (x, e) ↦ rw (retire-uncalled dto now s x e) kept
      ]

  step-EmittedStored : (c : Call p) (s : State p) → EmittedStored s → EmittedStored (step p c s)
  unfolding step list_retirements get_retirements_by_account
  step-EmittedStored (retirement dto now) s h = retire-EmittedStored dto now s h
  step-EmittedStored (look_up id) s h = rw (get_retirement-store id s, get_retirement-bus id s) h
  step-EmittedStored (list_page page limit) s h = h
  step-EmittedStored (list_of_account account page limit) s h = h
  step-EmittedStored (verification id) s h =
      rw (verify_certificate-store id s, verify_certificate-bus id s) h

  -- Whatever calls are made of the service, with whatever failures of the contract, of the repository
  -- and of the listeners: every retirement for which `CreditRetired` was emitted has its record in the
  -- index, if that held at the start.
  pub run-EmittedStored :
      (cs : List (Call p)) (s : State p) → EmittedStored s → EmittedStored (run p cs s)
  unfolding run
  run-EmittedStored [] s h = h
  run-EmittedStored (c ∷ cs) s h = run-EmittedStored cs (step p c s) (step-EmittedStored c s h)

  -- If the record cannot be written, the caller gets the error of the repository, no event is emitted
  -- and the index is as before; but the retirement on the chain has been made by then: the chain is as
  -- the contract call left it.
  pub retire-save_fails :
      (dto : RetireDto) (now : ℕ) (s : State p) (id : String) (x : Exception)
      → (retire_on_chain p dto s).0 ≡ ok id
      → (p.repository.save (retired_entity dto id now) s.store).0 ≡ err x
      → ((retire p dto now s).0 ≡ err x)
        × (emitted (retire p dto now s).1.bus ≡ emitted s.bus)
        × ((j : String) → stored (retire p dto now s).1.store j ≡ stored s.store j)
        × ((retire p dto now s).1.chain ≡ (retire_on_chain p dto s).1.chain)
  retire-save_fails dto now s id x called fails =
      let t = (retire_on_chain p dto s).1 in
      let same = retire_on_chain-store dto s in
      let (e0, e1, e2, e3) = record_retirement-unsaved dto now id t x (rw same fails) in
      rw (retire-called dto now s id called, e0, e1, e2, e3, same)
        (
          refl,
          rw (retire_on_chain-bus dto s),
          λ j. laws.save_err (retired_entity dto id now) s.store j x fails,
          refl,
        )

  -- A retirement that succeeded emits exactly one event, with the data of the request, and is read back
  -- from the index with those data and without asking the contract, if the index can be read.
  pub get_retirement-retire :
      (dto : RetireDto) (now : ℕ) (s : State p) (receipt : Receipt)
      (found : Option RetirementEntity)
      → (retire p dto now s).0 ≡ ok receipt
      → p.repository.find_by_id receipt.retirement_id (retire p dto now s).1.store ≡ ok found
      → (emitted (retire p dto now s).1.bus
          ≡ emitted s.bus ++ retired_event dto receipt.retirement_id now ∷ [])
        × (get_retirement p receipt.retirement_id (retire p dto now s).1 ≡ (
          ok (entity_to_record (retired_entity dto receipt.retirement_id now)),
          (retire p dto now s).1,
        ))
  get_retirement-retire dto now s receipt found done readable =
      let t = (retire_on_chain p dto s).1 in
      let (id, called) = retire-ok dto now s receipt done in
      let e = retire-called dto now s id called in
      let (named, (v, saved)) = record_retirement-ok dto now id t receipt (rw e at done) in
      let (e1, e2) = record_retirement-saved dto now id t v saved in
      let there = laws.save_ok (retired_entity dto id now) v t.store saved in
      let entity : found ≡ some (retired_entity dto receipt.retirement_id now) =
        laws.find_by_id_ok receipt.retirement_id _ found readable ∙ rw (e, e1, named) there in
      (
        rw (e, e2, emitted-emit, named, retire_on_chain-bus dto s),
        get_retirement-found receipt.retirement_id _ _ (readable ∙ rw entity),
      )
