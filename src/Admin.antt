-- ===== src/Admin.antt =====
-- api/src/admin/admin.service.ts: the operations behind the admin guard, over the credit service and
-- the verifier service, which read the same contract.
pub mod Unchanged
mod Tests
use carbonchain.Prelude.{ℕ, String, Bool, true, Option, List, [], ◌∷◌, length}
use carbonchain.Prelude.Results.{Result, ok, err, Io, ◌>>=◌, pure}
use carbonchain.Shared.{CreditStatus, flagged}
use carbonchain.Verifiers.{VerifierInfo, list_verifiers, get_verifier}
use carbonchain.Credits.Service.{Platform, State, get_credit}

pub record AdminStats : Type 0 where
  pub total_credits : ℕ
  pub total_retirements : ℕ
  pub active_verifiers : ℕ

pub record VerifierCapabilities : Type 0 where
  pub methodologies : Option (List String)
  pub geographies : Option (List String)

pub record Registered : Type 0 where
  pub registered : Bool
  pub address : String

pub record Suspended : Type 0 where
  pub suspended : Bool

pub record Configured : Type 0 where
  pub configured : Bool
  pub verifier_id : String

pub record Flagged : Type 0 where
  pub is_flagged : Bool
  pub credit_id : String
  pub status : CreditStatus

module _ (p : Platform) where
  open p use {sdk, stellar, contract_id}

  -- A call of the verifier service.
  abbrev pub on_chain : {A : Type 0} → Io stellar.Chain A → Io (State p) A
  on_chain m s = let (r, c) = m s.chain in (r, record s { chain = c })

  pub get_stats : Io (State p) AdminStats
  get_stats = do
    verifiers ← on_chain (list_verifiers sdk stellar contract_id)
    pure (record { total_credits = 0; total_retirements = 0; active_verifiers = length verifiers })

  pub register_verifier : String → Io (State p) Registered
  register_verifier address = pure (record { registered = true; address = address })

  pub suspend_verifier : String → Io (State p) Suspended
  suspend_verifier id = do
    _ ← on_chain (get_verifier sdk stellar contract_id id)
    pure (record { suspended = true })

  pub configure_verifier : String → VerifierCapabilities → Io (State p) Configured
  configure_verifier id capabilities = do
    _ ← on_chain (get_verifier sdk stellar contract_id id)
    pure (record { configured = true; verifier_id = id })

  pub flag_credit : String → Io (State p) Flagged
  flag_credit id = do
    _ ← get_credit p id
    pure (record { is_flagged = true; credit_id = id; status = flagged })

  -- The calls of the service.
  pub data Call : Type 0 where
    stats : Call
    register suspend flag : String → Call
    configure : String → VerifierCapabilities → Call

  pub step : Call → State p → State p
  step stats s = (get_stats s).1
  step (register address) s = (register_verifier address s).1
  step (suspend id) s = (suspend_verifier id s).1
  step (flag id) s = (flag_credit id s).1
  step (configure id capabilities) s = (configure_verifier id capabilities s).1

  pub run : List Call → State p → State p
  run [] s = s
  run (c ∷ cs) s = run cs (step c s)
