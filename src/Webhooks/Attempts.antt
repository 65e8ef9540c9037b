-- ===== src/Webhooks/Attempts.antt =====
-- The life of a delivery: how often it is attempted and which states it can reach.
use carbonchain.Prelude.{
  ℕ, ◌+◌, ◌*◌, ◌≤◌, ◌<◌, String, ◌≡◌, refl, inl, inr, true, some, List, [], ◌∷◌, arith, ltb, All,
  filter-All, Bool-cases, Option-cases,
}
use carbonchain.Prelude.JsMap.{
  get, set, modify, values, All-values-set, All-values-modify, modify-set,
}
use carbonchain.Webhooks.{
  Webhook, WebhookDelivery, Payload, event, retry, webhook_accepted, webhook_rejected, pending,
  failed, WebhooksService, World, Env, begin_attempt, delivery_accepted, delivery_rejected,
  retryable, register_webhook, delete_webhook, attempt_delivery, deliver_webhook, deliver_all,
  trigger_webhooks, retry_one, retry_all, retry_failed_deliveries, Call, register, unregister,
  trigger, retries, step, run,
}

-- Between two calls: a pending delivery has attempts left and a time for the next one, a failed one
-- has used all of them.
pub record IsSound (d : WebhookDelivery) : Type 0 where
  pub tried : 1 ≤ d.attempts
  pub bounded : d.attempts ≤ 5
  pub pending_below : d.status ≡ pending → d.attempts < 5
  pub pending_scheduled : d.status ≡ pending → (t : ℕ) × (d.next_retry_at ≡ some t)
  pub failed_at_max : d.status ≡ failed → d.attempts ≡ 5

attempt-IsSound_accepted :
    (d : WebhookDelivery) (now : ℕ)
    → d.attempts < 5
    → IsSound (delivery_accepted (begin_attempt d now))
unfolding delivery_accepted begin_attempt
attempt-IsSound_accepted d now h = record {
  tried = omega arith;
  bounded = omega arith;
  pending_below = λ e. cc;
  pending_scheduled = λ e. cc;
  failed_at_max = λ e. cc;
}

attempt-IsSound_rejected :
    (d : WebhookDelivery) (now after : ℕ)
    → d.attempts < 5
    → IsSound (delivery_rejected (begin_attempt d now) after)
unfolding delivery_rejected begin_attempt
attempt-IsSound_rejected d now after h = elim (Bool-cases (ltb (d.attempts + 1) 5)) [
  | inl t ↦ rw t (record {
    tried = omega arith;
    bounded = omega arith;
    pending_below = λ e. ground arith;
    pending_scheduled = λ e. (after + 5000 * (d.attempts + 1), refl);
    failed_at_max = λ e. cc;
  })
  | inr t ↦ rw t (record {
    tried = omega arith;
    bounded = omega arith;
    pending_below = λ e. cc;
    pending_scheduled = λ e. cc;
    failed_at_max = λ e. ground arith;
  })
]

abbrev pub AllSound : WebhooksService → Type 0
AllSound s = All IsSound (values s.deliveries)

-- The two ways in which an attempt ends.
pub data Attempted (w : Webhook) (d : WebhookDelivery) (s t : WebhooksService) : Type 0 where
  accepted :
      (now after : ℕ)
      → t.webhooks ≡ modify w.id (webhook_accepted after) s.webhooks
      → t.deliveries ≡ modify d.id (λ _. delivery_accepted (begin_attempt d now)) s.deliveries
      → Attempted w d s t
  rejected :
      (now after : ℕ)
      → t.webhooks ≡ modify w.id (webhook_rejected (begin_attempt d now)) s.webhooks
      → t.deliveries ≡ modify d.id (λ _. delivery_rejected (begin_attempt d now) after) s.deliveries
      → Attempted w d s t

Attempted-AllSound :
    {w : Webhook} {d : WebhookDelivery} {s t : WebhooksService}
    → d.attempts < 5
    → Attempted w d s t
    → AllSound s
    → AllSound t
Attempted-AllSound {d} {s} h (accepted now after _ e) all =
    rw e
      (All-values-modify IsSound d.id _ s.deliveries (λ _ _. attempt-IsSound_accepted d now h) all)
Attempted-AllSound {d} {s} h (rejected now after _ e) all = rw e (
    All-values-modify IsSound d.id _ s.deliveries (λ _ _. attempt-IsSound_rejected d now after h)
      all)

-- A delivery that is stored and attempted at once.
Attempted-AllSound_new :
    (w : Webhook) (d : WebhookDelivery) (s t : WebhooksService)
    → d.attempts < 5
    → Attempted w d (record s { deliveries = set d.id d s.deliveries }) t
    → AllSound s
    → AllSound t
Attempted-AllSound_new w d s t h (accepted now after _ e) all =
    let v = delivery_accepted (begin_attempt d now) in
    rw (e, modify-set d.id d v s.deliveries)
      (All-values-set IsSound d.id v s.deliveries (attempt-IsSound_accepted d now h) all)
Attempted-AllSound_new w d s t h (rejected now after _ e) all =
    let v = delivery_rejected (begin_attempt d now) after in
    rw (e, modify-set d.id d v s.deliveries)
      (All-values-set IsSound d.id v s.deliveries (attempt-IsSound_rejected d now after h) all)

module _ {E : Type 0} (world : World E) where
  pub attempt_delivery-Attempted :
      (w : Webhook) (d : WebhookDelivery) (ty : String) (p : Payload E) (s : Env world)
      → Attempted w d s.svc (attempt_delivery world w d ty p s).svc
  unfolding attempt_delivery
  attempt_delivery-Attempted w d ty p s =
      let sent =
        world.post w.url ty p (world.clock (world.clock s.env).1).0
          (world.clock (world.clock s.env).1).1 in
      elim (Bool-cases sent.0) [
        | inl t ↦ rw t (accepted (world.clock s.env).0 (world.clock sent.1).0 refl refl)
        | inr t ↦ rw t (rejected (world.clock s.env).0 (world.clock sent.1).0 refl refl)
      ]

  deliver_webhook-AllSound :
      (w : Webhook) (ty : String) (e : E) (s : Env world)
      → AllSound s.svc
      → AllSound (deliver_webhook world w ty e s).svc
  unfolding deliver_webhook
  deliver_webhook-AllSound w ty e s all =
      Attempted-AllSound_new w _ s.svc _ (omega arith)
        (attempt_delivery-Attempted w _ ty (event e) _) all

  deliver_all-AllSound :
      (ws : List Webhook) (ty : String) (e : E) (s : Env world)
      → AllSound s.svc
      → AllSound (deliver_all world ws ty e s).svc
  unfolding deliver_all
  deliver_all-AllSound [] ty e s all = all
  deliver_all-AllSound (w ∷ ws) ty e s all =
      deliver_all-AllSound ws ty e (deliver_webhook world w ty e s)
        (deliver_webhook-AllSound w ty e s all)

  retry_one-AllSound :
      (d : WebhookDelivery) (s : Env world)
      → d.attempts < 5
      → AllSound s.svc
      → AllSound (retry_one world d s).svc
  unfolding retry_one
  retry_one-AllSound d s h all = elim (Option-cases (get d.webhook_id s.svc.webhooks)) [
    | inl e ↦ rw (e, retry_one) all
    | inr (w, e) ↦
        rw (e, retry_one)
          (Attempted-AllSound h (attempt_delivery-Attempted w d "retry" (retry d.id) s) all)
  ]

  retry_all-AllSound :
      (now : ℕ) (ds : List WebhookDelivery) (s : Env world)
      → All (λ d. retryable now d ≡ true) ds
      → AllSound s.svc
      → AllSound (retry_all world ds s).svc
  unfolding retry_all
  retry_all-AllSound now [] s h all = all
  retry_all-AllSound now (d ∷ ds) s (t, h) all =
      retry_all-AllSound now ds (retry_one world d s) h (retry_one-AllSound d s (ground arith) all)

  step-AllSound : (c : Call E) (s : Env world) → AllSound s.svc → AllSound (step world c s).svc
  unfolding step register_webhook delete_webhook trigger_webhooks retry_failed_deliveries
  step-AllSound (register url events) s all = all
  step-AllSound (unregister id) s all = all
  step-AllSound (trigger ty e) s all = deliver_all-AllSound _ ty e s all
  step-AllSound retries s all =
      retry_all-AllSound (world.clock s.env).0 _ _ (filter-All _ (values s.svc.deliveries)) all

  -- After any sequence of calls from a service without deliveries, every delivery has been attempted
  -- at least once and at most MAX_RETRIES = 5 times; a pending one has attempts left and a time for
  -- the next retry, a failed one has used all five.
  pub run-AllSound :
      (cs : List (Call E)) (s : Env world) → s.svc.deliveries ≡ [] → AllSound (run world cs s).svc
  unfolding run
  run-AllSound cs s e = run_sound cs s (rw e tt)
    where
      run_sound :
          (cs : List (Call E)) (s : Env world) → AllSound s.svc → AllSound (run world cs s).svc
      run_sound [] s all = all
      run_sound (c ∷ cs) s all = run_sound cs (step world c s) (step-AllSound c s all)
