-- ===== src/Webhooks/Posts.antt =====
-- What the service posts: the exact sequence of POST requests of a trigger and of a retry run, and
-- that a webhook which was switched off stays off.
use carbonchain.Prelude.{
  ℕ, String, ◌≡◌, refl, sym, ◌∙◌, inl, inr, Option, none, some, List, [], ◌∷◌, ◌++◌, map, arith,
  filter, Option-cases,
}
use mathlib.Core.List.{append_assoc, append-nil}
use mathlib.Core.Option
use carbonchain.Prelude.JsMap.{JsMap, get, values, get-modify}
use carbonchain.Webhooks.{
  Webhook, WebhookDelivery, Payload, event, retry, WebhooksService, World, Env, wants, retryable,
  begin_attempt, webhook_accepted, webhook_rejected, attempt_delivery, deliver_webhook, deliver_all,
  trigger_webhooks, retry_one, retry_all, retry_failed_deliveries,
}
use carbonchain.Webhooks.Attempts.{Attempted, accepted, rejected, attempt_delivery-Attempted}

pub record Post (E : Type 0) : Type 0 where
  pub url : String
  pub event_type : String
  pub payload : Payload E

-- The environment keeps a log of the requests that were posted, whatever came of them; reading the
-- clock and drawing a random text post nothing.
pub record Log {E : Type 0} (world : World E) : Type 0 where
  pub sent : world.State → List (Post E)
  pub sent-clock : (s : world.State) → sent (world.clock s).1 ≡ sent s
  pub sent-random : (s : world.State) → sent (world.random s).1 ≡ sent s
  pub sent-post :
      (url ty : String) (p : Payload E) (at : ℕ) (s : world.State)
      → sent (world.post url ty p at s).1
        ≡ sent s ++ record { url = url; event_type = ty; payload = p } ∷ []

-- One retry request for each delivery whose webhook is still registered.
abbrev pub retry_posts : {E : Type 0} → JsMap Webhook → List WebhookDelivery → List (Post E)
retry_posts hooks [] = []
retry_posts hooks (d ∷ ds) = elim (get d.webhook_id hooks) [
  | none ↦ retry_posts hooks ds
  | some w ↦
      record { url = w.url; event_type = "retry"; payload = retry d.id } ∷ retry_posts hooks ds
]

module _ {E : Type 0} (world : World E) (log : Log world) where
  open log use {sent, sent-clock, sent-random, sent-post}

  attempt_delivery-posts :
      (w : Webhook) (d : WebhookDelivery) (ty : String) (p : Payload E) (s : Env world)
      → sent (attempt_delivery world w d ty p s).env
        ≡ sent s.env ++ record { url = w.url; event_type = ty; payload = p } ∷ []
  unfolding attempt_delivery
  attempt_delivery-posts w d ty p s = grind (arith, sent-clock, sent-post)

  deliver_webhook-posts :
      (w : Webhook) (ty : String) (e : E) (s : Env world)
      → sent (deliver_webhook world w ty e s).env
        ≡ sent s.env ++ record { url = w.url; event_type = ty; payload = event e } ∷ []
  unfolding deliver_webhook
  deliver_webhook-posts w ty e s =
      attempt_delivery-posts w _ ty (event e) _ ∙ simp (sent-random, sent-clock)

  deliver_all-posts :
      (ws : List Webhook) (ty : String) (e : E) (s : Env world)
      → sent (deliver_all world ws ty e s).env
        ≡ sent s.env ++ map (λ w. record { url = w.url; event_type = ty; payload = event e }) ws
  unfolding deliver_all
  deliver_all-posts [] ty e s = sym (append-nil _)
  deliver_all-posts (w ∷ ws) ty e s =
      deliver_all-posts ws ty e (deliver_webhook world w ty e s)
      ∙ simp (deliver_webhook-posts, append_assoc)

  -- A trigger posts the event once to every active webhook that is registered for its type, in the
  -- order of registration, and to nobody else; a rejected post does not keep the others from theirs.
  pub trigger_webhooks-posts :
      (ty : String) (e : E) (s : Env world)
      → sent (trigger_webhooks world ty e s).env
        ≡ sent s.env
          ++ map
              (λ w. record { url = w.url; event_type = ty; payload = event e })
              (filter (wants ty) (values s.svc.webhooks))
  unfolding trigger_webhooks
  trigger_webhooks-posts ty e s = deliver_all-posts _ ty e s

  retry_one-posts :
      (d : WebhookDelivery) (s : Env world)
      → sent (retry_one world d s).env ≡ sent s.env ++ retry_posts s.svc.webhooks (d ∷ [])
  unfolding retry_one
  retry_one-posts d s = elim (Option-cases (get d.webhook_id s.svc.webhooks)) [
    | inl e ↦ rw (e, retry_one, retry_posts) (sym (append-nil _))
    | inr (w, e) ↦
        rw (e, retry_one, retry_posts) (attempt_delivery-posts w d "retry" (retry d.id) s)
  ]

-- Where posts of a webhook go, if it is registered.
abbrev url_of : String → JsMap Webhook → Option String
url_of k hooks = Option.map (λ (w : Webhook). w.url) (get k hooks)

Attempted-url :
    (k : String) {w : Webhook} {d : WebhookDelivery} {s t : WebhooksService}
    → Attempted w d s t
    → url_of k t.webhooks ≡ url_of k s.webhooks
unfolding webhook_accepted webhook_rejected
Attempted-url k {w} {s} (accepted now after e _) =
    rw e (ground (arith, get-modify w.id k (webhook_accepted after) s.webhooks))
Attempted-url k {w} {d} {s} (rejected now after e _) =
    rw e (ground (arith, get-modify w.id k (webhook_rejected (begin_attempt d now)) s.webhooks))

module _ {E : Type 0} where
  retry_posts_congr :
      (ds : List WebhookDelivery) (hooks hooks' : JsMap Webhook)
      → ((k : String) → url_of k hooks ≡ url_of k hooks')
      → retry_posts {E = E} hooks ds ≡ retry_posts hooks' ds
  retry_posts_congr [] hooks hooks' h = refl
  retry_posts_congr (d ∷ ds) hooks hooks' h =
      ground (arith, h d.webhook_id, retry_posts_congr ds hooks hooks' h)

  retry_posts-cons :
      (d : WebhookDelivery) (ds : List WebhookDelivery) (hooks : JsMap Webhook)
      → retry_posts {E = E} hooks (d ∷ ds) ≡ retry_posts hooks (d ∷ []) ++ retry_posts hooks ds
  retry_posts-cons d ds hooks = ground arith

module _ {E : Type 0} (world : World E) (log : Log world) where
  open log use {sent, sent-clock}

  retry_one-url :
      (k : String) (d : WebhookDelivery) (s : Env world)
      → url_of k (retry_one world d s).svc.webhooks ≡ url_of k s.svc.webhooks
  unfolding retry_one
  retry_one-url k d s = elim (Option-cases (get d.webhook_id s.svc.webhooks)) [
    | inl e ↦ rw (e, retry_one)
    | inr (w, e) ↦
        rw (e, retry_one)
          (Attempted-url k (attempt_delivery-Attempted world w d "retry" (retry d.id) s))
  ]

  retry_all-posts :
      (ds : List WebhookDelivery) (s : Env world)
      → sent (retry_all world ds s).env ≡ sent s.env ++ retry_posts s.svc.webhooks ds
  unfolding retry_all
  retry_all-posts [] s = sym (append-nil _)
  retry_all-posts (d ∷ ds) s =
      retry_all-posts ds (retry_one world d s)
      ∙ simp (
        retry_posts-cons d ds s.svc.webhooks,
        retry_one-posts world log d s,
        retry_posts_congr ds _ s.svc.webhooks (λ k. retry_one-url k d s),
        append_assoc,
      )

  -- A retry run posts once for each delivery that is pending, due and below the limit and whose
  -- webhook is still registered, in the order of the deliveries. Each such request has the type
  -- `retry` and carries the id of the delivery, never the event that could not be delivered.
  pub retry_failed_deliveries-posts :
      (s : Env world)
      → sent (retry_failed_deliveries world s).env
        ≡ sent s.env
          ++ retry_posts s.svc.webhooks
              (filter (retryable (world.clock s.env).0) (values s.svc.deliveries))
  unfolding retry_failed_deliveries
  retry_failed_deliveries-posts s = retry_all-posts _ _ ∙ simp sent-clock
