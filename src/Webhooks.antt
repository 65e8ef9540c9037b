-- ===== src/Webhooks.antt =====
-- api/src/webhooks/webhooks.service.ts: registration, delivery and retry of webhooks.
-- Each object of the two maps is a record stored under its id, and a write through a captured
-- reference is a write to the record that is still stored. The calls run one after the other, as a
-- single caller awaits them. The clock, the random part of an id and the outcome of `axios.post`
-- are parameters; dates are milliseconds.
mod Data
pub mod Attempts
pub mod Posts
pub mod Deactivation
mod Tests
pub use Data.*
use carbonchain.Prelude.{
  ℕ, ◌+◌, ◌*◌, String, ◌+++◌, Bool, true, false, ◌&&◌, Option, none, some, List, [], ◌∷◌, ltb, leb,
  ◌===◌, if◌then◌else◌, filter, any,
}
use carbonchain.Prelude.Decimal.{decimal}
use carbonchain.Prelude.JsMap.{JsMap, get, set, delete, values, modify}

-- `delivery.attempts++; delivery.lastAttemptAt = new Date()`
pub begin_attempt : WebhookDelivery → ℕ → WebhookDelivery
begin_attempt d now = record d { attempts = d.attempts + 1; last_attempt_at = some now }

-- The writes to the delivery and to the webhook after the post was accepted.
pub delivery_accepted : WebhookDelivery → WebhookDelivery
delivery_accepted d = record d { status = success }

pub webhook_accepted : ℕ → Webhook → Webhook
webhook_accepted now w = record w { last_triggered_at = some now; failure_count = 0 }

-- The writes after the post was rejected.
pub delivery_rejected : WebhookDelivery → ℕ → WebhookDelivery
delivery_rejected d now =
    if ltb d.attempts max_retries
    then record d { status = pending; next_retry_at = some (now + retry_delay_ms * d.attempts) }
    else record d { status = failed }

pub webhook_rejected : WebhookDelivery → Webhook → Webhook
webhook_rejected d w =
    if ltb d.attempts max_retries
    then record w { failure_count = w.failure_count + 1 }
    else record w { failure_count = w.failure_count + 1; active = false }

pub get_webhooks : WebhooksService → List Webhook
get_webhooks s = values s.webhooks

pub get_webhook : String → WebhooksService → Option Webhook
get_webhook id s = get id s.webhooks

-- `Map.delete` answers whether there was such a key.
abbrev is_there : Option Webhook → Bool
is_there none = false
is_there (some w) = true

pub delete_webhook : String → WebhooksService → Bool × WebhooksService
delete_webhook id s = (is_there (get id s.webhooks), record s { webhooks = delete id s.webhooks })

-- `getDeliveries(webhookId?)`: the empty id is no filter.
pub get_deliveries : Option String → WebhooksService → List WebhookDelivery
get_deliveries none s = values s.deliveries
get_deliveries (some id) s =
    if id === ""
    then values s.deliveries
    else filter (λ d. d.webhook_id === id) (values s.deliveries)

-- The test by which `triggerWebhooks` selects webhooks.
abbrev pub wants : String → Webhook → Bool
wants event_type w = w.active && any (λ e. e === event_type) w.events

-- The test by which `retryFailedDeliveries` selects deliveries.
abbrev pub retryable : ℕ → WebhookDelivery → Bool
retryable now d = is_pending d.status && is_due d.next_retry_at now && ltb d.attempts max_retries

-- The calls of the service that change it.
pub data Call (E : Type 0) : Type 0 where
  register : String → List String → Call E
  unregister : String → Call E
  trigger : String → E → Call E
  retries : Call E

module _ {E : Type 0} (world : World E) where
  open world use {State, clock, random, post, event_id}

  -- The service and its environment.
  pub record Env : Type 0 where
    pub svc : WebhooksService
    pub env : State

  new_id : String → State → String × State
  new_id prefix w =
      let (now, w1) = clock w in
      let (tail, w2) = random w1 in (prefix +++ (decimal now +++ ("_" +++ tail)), w2)

  pub register_webhook : String → List String → Env → Webhook × Env
  unfolding new_id decimal
  register_webhook url events s =
      let (id, w1) = new_id "webhook_" s.env in
      let (created, w2) = clock w1 in
      let webhook : Webhook = record {
        id = id;
        url = url;
        events = events;
        active = true;
        created_at = created;
        last_triggered_at = none;
        failure_count = 0;
      } in
      let svc : WebhooksService = record (s.svc) { webhooks = set id webhook s.svc.webhooks } in
      (webhook, record { svc = svc; env = w2 })

  pub attempt_delivery : Webhook → WebhookDelivery → String → Payload E → Env → Env
  attempt_delivery webhook delivery event_type payload s =
      let (now, w1) = clock s.env in
      let tried = begin_attempt delivery now in
      let (stamp, w2) = clock w1 in
      let (accepted, w3) = post webhook.url event_type payload stamp w2 in
      let (after, w4) = clock w3 in
      let record { webhooks = hooks; deliveries = ds } = s.svc in
      if accepted
      then record {
        svc = record {
          webhooks = modify webhook.id (webhook_accepted after) hooks;
          deliveries = modify delivery.id (λ _. delivery_accepted tried) ds;
        };
        env = w4;
      }
      else record {
        svc = record {
          webhooks = modify webhook.id (webhook_rejected tried) hooks;
          deliveries = modify delivery.id (λ _. delivery_rejected tried after) ds;
        };
        env = if ltb tried.attempts max_retries then w4 else w3;
      }

  pub deliver_webhook : Webhook → String → E → Env → Env
  unfolding new_id decimal
  deliver_webhook webhook event_type e s =
      let (id, w1) = new_id "delivery_" s.env in
      let delivery : WebhookDelivery = record {
        id = id;
        webhook_id = webhook.id;
        event_id = id_or_unknown (event_id e);
        status = pending;
        attempts = 0;
        last_attempt_at = none;
        next_retry_at = none;
      } in
      let svc : WebhooksService = record (s.svc) {
        deliveries = set id delivery s.svc.deliveries;
      } in
      attempt_delivery webhook delivery event_type (event e) (record { svc = svc; env = w1 })

  -- The loop of `triggerWebhooks`.
  deliver_all : List Webhook → String → E → Env → Env
  deliver_all [] event_type e s = s
  deliver_all (w ∷ ws) event_type e s =
      deliver_all ws event_type e (deliver_webhook w event_type e s)

  pub trigger_webhooks : String → E → Env → Env
  trigger_webhooks event_type e s =
      deliver_all (filter (wants event_type) (values s.svc.webhooks)) event_type e s

  -- One round of the loop of `retryFailedDeliveries`: the webhook is looked up when its turn comes.
  retry_one : WebhookDelivery → Env → Env
  retry_one d s = elim (get d.webhook_id s.svc.webhooks) [
    | none ↦ s
    | some w ↦ attempt_delivery w d "retry" (retry d.id) s
  ]

  retry_all : List WebhookDelivery → Env → Env
  retry_all [] s = s
  retry_all (d ∷ ds) s = retry_all ds (retry_one d s)

  pub retry_failed_deliveries : Env → Env
  retry_failed_deliveries s =
      let (now, w1) = clock s.env in
      retry_all (filter (retryable now) (values s.svc.deliveries)) (record s { env = w1 })

  pub step : Call E → Env → Env
  step (register url events) s = (register_webhook url events s).1
  step (unregister id) s = record s { svc = (delete_webhook id s.svc).1 }
  step (trigger event_type e) s = trigger_webhooks event_type e s
  step retries s = retry_failed_deliveries s

  pub run : List (Call E) → Env → Env
  run [] s = s
  run (c ∷ cs) s = run cs (step c s)
