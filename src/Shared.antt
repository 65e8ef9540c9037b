-- ===== src/Shared.antt =====
-- shared/index.ts (and its copy api/src/shared.ts): the data that the API answers with.
-- Numbers of seconds and years are natural numbers.
use carbonchain.Prelude.{ℕ, String, Bool, List}

pub data CreditStatus : Type 0 where
  pending active retired flagged : CreditStatus

-- The text that the string enum stands for at run time.
abbrev pub status_text : CreditStatus → String
status_text pending = "Pending"
status_text active = "Active"
status_text retired = "Retired"
status_text flagged = "Flagged"

pub record CreditMetadata : Type 0 where
  pub id : String
  pub project_id : String
  pub issuer : String
  pub vintage_year : ℕ
  pub methodology : String
  pub geography : String
  pub tonnes : String
  pub ipfs_hash : String
  pub status : CreditStatus
  pub issued_at : ℕ

pub record ProjectProfile : Type 0 where
  pub id : String
  pub name : String
  pub developer : String
  pub description : String
  pub location : String
  pub methodology : String
  pub documents_cid : String

pub record RetirementRecord : Type 0 where
  pub id : String
  pub credit_id : String
  pub buyer : String
  pub tonnes_retired : String
  pub reason : String
  pub retired_at : ℕ
  pub tx_hash : String

pub data OfferStatus : Type 0 where
  open_offer filled cancelled : OfferStatus

pub record Offer : Type 0 where
  pub id : String
  pub seller : String
  pub credit_id : String
  pub price_xlm : String
  pub tonnes_available : String
  pub created_at : ℕ
  pub status : OfferStatus

pub record MrvDataPoint : Type 0 where
  pub project_id : String
  pub oracle : String
  pub tonnes_sequestered : String
  pub measurement_date : ℕ
  pub methodology : String
  pub anomaly_flag : Bool

pub data OperationResult : Type 0 where
  success failure : OperationResult

-- The metadata are an association list.
pub record OperationContext : Type 0 where
  pub session_id : String
  pub operation : String
  pub actor : String
  pub target_id : String
  pub result : OperationResult
  pub timestamp : ℕ
  pub metadata : List (String × String)

pub record AuditLog : Type 0 where
  pub log_id : ℕ
  pub context : OperationContext
  pub tx_hash : String

pub data SessionStatus : Type 0 where
  ongoing completed : SessionStatus

pub record InteractionSession : Type 0 where
  pub session_id : String
  pub initiator : String
  pub created_at : ℕ
  pub operation_count : ℕ
  pub status : SessionStatus
