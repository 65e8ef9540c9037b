-- ===== src/Webhooks/Deactivation.antt =====
-- A webhook is switched off when one of its deliveries fails for good, and stays off.
use carbonchain.Prelude.{
  ℕ, ◌+◌, String, ◌≡◌, refl, inl, inr, false, some, List, [], ◌∷◌, arith, ltb, All, All-mono,
  Bool-cases, Option-cases,
}
use carbonchain.Prelude.JsMap.{
  JsMap, get, set, modify, values, get-modify_inv, get-delete, All-values-set, All-values-modify,
}
use carbonchain.Webhooks.{
  Webhook, WebhookDelivery, pending, failed, event, retry, webhook_accepted, webhook_rejected,
  WebhooksService, World, Env, begin_attempt, delivery_accepted, delivery_rejected, delete_webhook,
  deliver_webhook, deliver_all, trigger_webhooks, retry_one, retry_all, retry_failed_deliveries,
  Call, register, unregister, trigger, retries, step, run,
}
use carbonchain.Webhooks.Attempts.{Attempted, accepted, rejected, attempt_delivery-Attempted}

-- The webhook of the delivery, if it is still registered, is switched off.
abbrev pub IsOff : JsMap Webhook → WebhookDelivery → Type 0
IsOff hooks d =
    d.status ≡ failed → (w : Webhook) → get d.webhook_id hooks ≡ some w → w.active ≡ false

abbrev pub IsKeyed : JsMap Webhook → Type 0
IsKeyed hooks = (k : String) (w : Webhook) → get k hooks ≡ some w → w.id ≡ k

pub record Inv (s : WebhooksService) : Type 0 where
  pub keyed : IsKeyed s.webhooks
  pub off : All (IsOff s.webhooks) (values s.deliveries)

-- A write to a webhook that keeps its id and switches nothing on.
abbrev IsTame : (Webhook → Webhook) → Type 0
IsTame f = (w : Webhook) → ((f w).id ≡ w.id) × (w.active ≡ false → (f w).active ≡ false)

webhook_accepted-IsTame : (t : ℕ) → IsTame (webhook_accepted t)
unfolding webhook_accepted
webhook_accepted-IsTame t w = (refl, λ e. e)

webhook_rejected-IsTame : (d : WebhookDelivery) → IsTame (webhook_rejected d)
unfolding webhook_rejected
webhook_rejected-IsTame d w = (ground arith, λ e. ground arith)

modify-IsKeyed :
    (i : String) (f : Webhook → Webhook) (hooks : JsMap Webhook)
    → IsTame f
    → IsKeyed hooks
    → IsKeyed (modify i f hooks)
modify-IsKeyed i f hooks tame keyed k w e =
    let (u, g, which) = get-modify_inv i k f hooks e in
    let same = keyed k u g in
    let kept = (tame u).0 in elim which [ inl (_, p) ↦ cc | inr (_, p) ↦ cc ]

modify-IsOff :
    (i : String) (f : Webhook → Webhook) (hooks : JsMap Webhook) (d : WebhookDelivery)
    → IsTame f
    → IsOff hooks d
    → IsOff (modify i f hooks) d
modify-IsOff i f hooks d tame off st w e =
    let (u, g, which) = get-modify_inv i d.webhook_id f hooks e in
    let was = off st u g in elim which [ inl (_, p) ↦ p' p ((tame u).1 was) | inr (_, p) ↦ cc ]
  where
    p' : {u : Webhook} → w ≡ f u → (f u).active ≡ false → w.active ≡ false
    p' p h = rw p h

delivery_accepted-IsOff :
    (hooks : JsMap Webhook) (d : WebhookDelivery) (now : ℕ)
    → IsOff hooks (delivery_accepted (begin_attempt d now))
unfolding delivery_accepted
delivery_accepted-IsOff hooks d now st w e = cc

-- The last rejected attempt switches the webhook off.
delivery_rejected-IsOff :
    (w : Webhook) (hooks : JsMap Webhook) (d : WebhookDelivery) (now after : ℕ)
    → w.id ≡ d.webhook_id
    → IsOff
        (modify w.id (webhook_rejected (begin_attempt d now)) hooks)
        (delivery_rejected (begin_attempt d now) after)
unfolding delivery_rejected webhook_rejected begin_attempt
delivery_rejected-IsOff w hooks d now after same st v e =
    elim (Bool-cases (ltb (d.attempts + 1) 5)) [
      | inl t ↦ absurd (ground arith)
      | inr t ↦
          let (u, _, which) =
            get-modify_inv w.id d.webhook_id (webhook_rejected (begin_attempt d now)) hooks {v = v}
              (ground arith) in
          elim which [ inl (_, p) ↦ ground arith | inr (n, _) ↦ absurd (n same) ]
    ]

-- An attempt of a delivery at its own webhook.
Attempted-Inv :
    (w : Webhook) (d : WebhookDelivery) (s t : WebhooksService)
    → w.id ≡ d.webhook_id
    → Attempted w d s t
    → Inv s
    → Inv t
Attempted-Inv w d s t same (accepted now after p q) inv =
    let f = webhook_accepted after in
    let tame = webhook_accepted-IsTame after in
    let hooks = modify w.id f s.webhooks in
    record {
      keyed = rw p (modify-IsKeyed w.id f s.webhooks tame inv.keyed);
      off =
          rw (p, q)
            (All-values-modify (IsOff hooks) d.id _ s.deliveries
              (λ _ _. delivery_accepted-IsOff hooks d now)
              (All-mono (values s.deliveries) (λ x. modify-IsOff w.id f s.webhooks x tame)
                inv.off));
    }
Attempted-Inv w d s t same (rejected now after p q) inv =
    let f = webhook_rejected (begin_attempt d now) in
    let tame = webhook_rejected-IsTame (begin_attempt d now) in
    let hooks = modify w.id f s.webhooks in
    record {
      keyed = rw p (modify-IsKeyed w.id f s.webhooks tame inv.keyed);
      off =
          rw (p, q)
            (All-values-modify (IsOff hooks) d.id _ s.deliveries
              (λ _ _. delivery_rejected-IsOff w s.webhooks d now after same)
              (All-mono (values s.deliveries) (λ x. modify-IsOff w.id f s.webhooks x tame)
                inv.off));
    }

-- A delivery that has just been made is pending.
set-Inv :
    (d : WebhookDelivery) (s : WebhooksService)
    → d.status ≡ pending
    → Inv s
    → Inv (record s { deliveries = set d.id d s.deliveries })
set-Inv d s st inv = record {
  keyed = inv.keyed;
  off = All-values-set (IsOff s.webhooks) d.id d s.deliveries (λ f w e. cc) inv.off;
}

delete-Inv : (id : String) (s : WebhooksService) → Inv s → Inv (delete_webhook id s).1
unfolding delete_webhook
delete-Inv id s inv = record {
  keyed = λ k w e. inv.keyed k w (ground (arith, get-delete id k s.webhooks));
  off =
      All-mono (values s.deliveries)
        (λ d off st w e. off st w (ground (arith, get-delete id d.webhook_id s.webhooks))) inv.off;
}

module _ {E : Type 0} (world : World E) where
  deliver_webhook-Inv :
      (w : Webhook) (ty : String) (e : E) (s : Env world)
      → Inv s.svc
      → Inv (deliver_webhook world w ty e s).svc
  unfolding deliver_webhook
  deliver_webhook-Inv w ty e s inv =
      Attempted-Inv w _ _ _ refl (attempt_delivery-Attempted world w _ ty (event e) _)
        (set-Inv _ s.svc refl inv)

  deliver_all-Inv :
      (ws : List Webhook) (ty : String) (e : E) (s : Env world)
      → Inv s.svc
      → Inv (deliver_all world ws ty e s).svc
  unfolding deliver_all
  deliver_all-Inv [] ty e s inv = inv
  deliver_all-Inv (w ∷ ws) ty e s inv =
      deliver_all-Inv ws ty e (deliver_webhook world w ty e s) (deliver_webhook-Inv w ty e s inv)

  retry_one-Inv : (d : WebhookDelivery) (s : Env world) → Inv s.svc → Inv (retry_one world d s).svc
  unfolding retry_one
  retry_one-Inv d s inv = elim (Option-cases (get d.webhook_id s.svc.webhooks)) [
    | inl e ↦ rw (e, retry_one) inv
    | inr (w, e) ↦
        rw (e, retry_one)
          (Attempted-Inv w d _ _ (inv.keyed d.webhook_id w e)
            (attempt_delivery-Attempted world w d "retry" (retry d.id) s) inv)
  ]

  retry_all-Inv :
      (ds : List WebhookDelivery) (s : Env world) → Inv s.svc → Inv (retry_all world ds s).svc
  unfolding retry_all
  retry_all-Inv [] s inv = inv
  retry_all-Inv (d ∷ ds) s inv = retry_all-Inv ds (retry_one world d s) (retry_one-Inv d s inv)

  -- Calls other than a registration, which could reuse the id of an old webhook.
  abbrev pub NotRegister : Call E → Type 0
  NotRegister (register url events) = ⊥
  NotRegister _ = Unit

  -- From a state in which it holds, this holds after triggers, retries and deletions in any order:
  -- the webhooks stand under their ids, and where a delivery has failed for good, its webhook is
  -- switched off or no longer registered.
  pub run-Inv :
      (cs : List (Call E)) (s : Env world)
      → All NotRegister cs
      → Inv s.svc
      → Inv (run world cs s).svc
  unfolding run step trigger_webhooks retry_failed_deliveries
  run-Inv [] s h inv = inv
  run-Inv (register url events ∷ cs) s h inv = absurd h.0
  run-Inv (unregister id ∷ cs) s h inv = run-Inv cs _ h.1 (delete-Inv id s.svc inv)
  run-Inv (trigger ty e ∷ cs) s h inv = run-Inv cs _ h.1 (deliver_all-Inv _ ty e s inv)
  run-Inv (retries ∷ cs) s h inv = run-Inv cs _ h.1 (retry_all-Inv _ _ inv)
