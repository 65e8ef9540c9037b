-- ===== src/Webhooks/Tests.antt =====
-- The webhook service at concrete inputs: an environment that plays a list of outcomes.
use carbonchain.Prelude.{
  ℕ, ◌+◌, String, ◌≡◌, refl, ◌++◌, Bool, true, false, none, some, List, [], ◌∷◌, map, arith,
  ===_iff,
}
use carbonchain.Prelude.Decimal.{decimal}
use carbonchain.Prelude.JsMap.{values}
use carbonchain.Webhooks
use carbonchain.Webhooks.{
  Webhook, WebhookDelivery, success, failed, Payload, event, retry, WebhooksService, World, Env,
  begin_attempt, delivery_accepted, delivery_rejected, webhook_accepted, webhook_rejected, wants,
  retryable, register_webhook, attempt_delivery, deliver_webhook, deliver_all, trigger_webhooks,
  retry_one, retry_all, retry_failed_deliveries, Call, register, unregister, trigger, retries, step,
  run,
}
use carbonchain.Webhooks.Attempts.{AllSound, run-AllSound}
use carbonchain.Webhooks.Posts.{Post, Log, trigger_webhooks-posts, retry_failed_deliveries-posts}
use carbonchain.Webhooks.Deactivation.{IsKeyed, Inv, run-Inv}

-- The time, the outcomes to come (none left: rejected), and what was posted.
abbrev Play : Type 0
Play = ℕ × List Bool × List (Post String)

abbrev play_post : String → String → Payload String → ℕ → Play → Bool × Play
play_post url ty p at (t, [], l) =
    (false, (t, [], l ++ record { url = url; event_type = ty; payload = p } ∷ []))
play_post url ty p at (t, b ∷ bs, l) =
    (b, (t, bs, l ++ record { url = url; event_type = ty; payload = p } ∷ []))

abbrev play : World String
play = record {
  State = Play;
  clock = λ s. (s.0, (s.0 + 30000, s.1, s.2));
  random = λ s. ("x", s);
  post = play_post;
  event_id = λ e. some e;
}

play_post-sent :
    (url ty : String) (p : Payload String) (at : ℕ) (s : Play)
    → (play_post url ty p at s).1.2 ≡ s.2 ++ record { url = url; event_type = ty; payload = p } ∷ []
play_post-sent url ty p at (t, [], l) = refl
play_post-sent url ty p at (t, b ∷ bs, l) = refl

abbrev play_log : Log play
play_log = record {
  sent = λ s. s.2;
  sent-clock = λ s. refl;
  sent-random = λ s. refl;
  sent-post = play_post-sent;
}

abbrev hook : Webhook
hook = record {
  id = "h";
  url = "https://a";
  events = "CreditRetired" ∷ [];
  active = true;
  created_at = 0;
  last_triggered_at = none;
  failure_count = 0;
}

abbrev start : List Bool → Env play
start outcomes = record {
  svc = record { webhooks = ("h", hook) ∷ []; deliveries = [] };
  env = (0, outcomes, []);
}

-- A trigger and enough retries, each due when it comes.
abbrev tries : List (Call String)
tries = trigger "CreditRetired" "e1" ∷ retries ∷ retries ∷ retries ∷ retries ∷ retries ∷ []

webhooks : Unit {0}
unfolding run step trigger_webhooks deliver_all deliver_webhook attempt_delivery
    retry_failed_deliveries retry_all retry_one begin_attempt delivery_accepted delivery_rejected
    webhook_accepted webhook_rejected decimal register_webhook
webhooks = tt

-- All five attempts are rejected: the delivery has failed and the webhook is off.
exhausted :
    (map (λ d. d.attempts) (values (run play tries (start [])).svc.deliveries) ≡ 5 ∷ [])
    × (map (λ d. d.status) (values (run play tries (start [])).svc.deliveries) ≡ failed ∷ [])
    × (map (λ w. w.active) (values (run play tries (start [])).svc.webhooks) ≡ false ∷ [])
unfolding webhooks
exhausted = (refl, refl, refl)

-- The first retry is accepted; what it posts names the delivery and not the event `e1`.
accepted_retry :
    map (λ p. p.payload) (run play tries (start (false ∷ true ∷ []))).env.2
    ≡ event "e1" ∷ retry "delivery_0_x" ∷ []
unfolding webhooks
accepted_retry = refl

run-AllSound_example : AllSound (run play tries (start [])).svc
run-AllSound_example = run-AllSound play tries (start []) refl

trigger_webhooks-posts_example :
    (trigger_webhooks play "CreditRetired" "e1" (start [])).env.2
    ≡ record { url = "https://a"; event_type = "CreditRetired"; payload = event "e1" } ∷ []
trigger_webhooks-posts_example =
    trigger_webhooks-posts play play_log "CreditRetired" "e1" (start [])

abbrev waiting : Env play
waiting = record {
  svc = record {
    webhooks = ("h", hook) ∷ [];
    deliveries =
        (
          "d",
          record {
            id = "d";
            webhook_id = "h";
            event_id = "e1";
            status = Webhooks.pending;
            attempts = 2;
            last_attempt_at = some 10;
            next_retry_at = some 10010;
          },
        )
        ∷ [];
  };
  env = (20000, true ∷ [], []);
}

retry_failed_deliveries-posts_example :
    (retry_failed_deliveries play waiting).env.2
    ≡ record { url = "https://a"; event_type = "retry"; payload = retry "d" } ∷ []
retry_failed_deliveries-posts_example = retry_failed_deliveries-posts play play_log waiting

keyed : IsKeyed (("h", hook) ∷ [])
keyed k w e = ground (arith, ===_iff "h" k)

run-Inv_example : Inv (run play tries (start [])).svc
run-Inv_example =
    run-Inv play tries (start []) (tt, (tt, (tt, (tt, (tt, (tt, tt))))))
      (record { keyed = keyed; off = tt })
