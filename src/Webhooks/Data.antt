-- ===== src/Webhooks/Data.antt =====
-- api/src/webhooks/webhooks.service.ts: the objects of the two maps, the constants and the environment.
use carbonchain.Prelude.{
  ℕ, String, Bool, true, false, Option, none, some, List, leb, ◌===◌, if◌then◌else◌,
}
use carbonchain.Prelude.JsMap.{JsMap}

pub record Webhook : Type 0 where
  pub id : String
  pub url : String
  pub events : List String
  pub active : Bool
  pub created_at : ℕ
  pub last_triggered_at : Option ℕ
  pub failure_count : ℕ

pub data DeliveryStatus : Type 0 where
  pending success failed : DeliveryStatus

pub record WebhookDelivery : Type 0 where
  pub id : String
  pub webhook_id : String
  pub event_id : String
  pub status : DeliveryStatus
  pub attempts : ℕ
  pub last_attempt_at : Option ℕ
  pub next_retry_at : Option ℕ

-- What is posted as `data`: the event, or `{ deliveryId }` on a retry.
pub data Payload (E : Type 0) : Type 0 where
  event : E → Payload E
  retry : String → Payload E

pub record WebhooksService : Type 0 where
  pub webhooks : JsMap Webhook
  pub deliveries : JsMap WebhookDelivery

-- What the service asks of its environment, with the environment's own state.
pub record World (E : Type 0) : Type 1 where
  pub State : Type 0
  pub clock : State → ℕ × State
  pub random : State → String × State
  pub post : String → String → Payload E → ℕ → State → Bool × State
  pub event_id : E → Option String

abbrev pub max_retries : ℕ
max_retries = 5

abbrev pub retry_delay_ms : ℕ
retry_delay_ms = 5000

abbrev pub is_pending : DeliveryStatus → Bool
is_pending pending = true
is_pending _ = false

-- `d.nextRetryAt && d.nextRetryAt <= now`
abbrev pub is_due : Option ℕ → ℕ → Bool
is_due none now = false
is_due (some t) now = leb t now

-- `eventData.id || 'unknown'`
abbrev pub id_or_unknown : Option String → String
id_or_unknown none = "unknown"
id_or_unknown (some i) = if i === "" then "unknown" else i
