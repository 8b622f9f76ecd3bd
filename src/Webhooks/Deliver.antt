-- ===== src/Webhooks/Deliver.antt =====
-- `deliverWebhook` of src/lib/webhooks.ts.
use omni_mission_control.Prelude.{
  ℕ, ◌+◌, ◌-◌, Bool, true, false, not, ◌&&◌, ◌||◌, Option, none, some, List, [], ◌∷◌, ◌++◌, String,
  filter, any, ltb, ◌==◌, if◌then◌else◌,
}
use omni_mission_control.Webhooks.{
  Webhook, Body, Delivery, WebhookDb, Outcome, World, Moment, next_retry_delay, headers, status_of,
  error_of, text_of, is_success, find_hook, update_hooks, stamp, reset_failures, add_failure,
  disable, trips,
}

-- The row of `webhooks` after an attempt that may be retried.
unfoldable pub after_attempt : ℕ → ℕ → ℕ → Webhook → Bool → List Webhook → List Webhook
after_attempt max now attempt x true hooks = update_hooks x.id x.workspace_id reset_failures hooks
after_attempt max now attempt x false hooks =
    let counted = update_hooks x.id x.workspace_id add_failure hooks in
    if ltb attempt (max - 1)
    then counted
    else if trips max (find_hook x.id x.workspace_id counted)
    then update_hooks x.id x.workspace_id (disable now) counted
    else counted

-- When an attempt is tried again.
abbrev pub retry_at : World → Moment → ℕ → Bool → Bool → Option ℕ
retry_at env m attempt allow success =
    if allow && not success && ltb attempt (env.max_retries - 1)
    then some (m.now + next_retry_delay attempt m.random)
    else none

abbrev pub of_hook : Webhook → Delivery → Bool
of_hook x d = d.webhook_id == x.id && d.workspace_id == x.workspace_id

-- Deletes the deliveries of the webhook that are not among the newest 200 of it.
unfoldable pub prune : World → Webhook → List Delivery → List Delivery
prune env x ds =
    let ids = env.recent (filter (of_hook x) ds) in
    filter (λ d. not (of_hook x d) || any (λ i. d.id == i) ids) ds

pub record DeliverOpts : Type 0 where
  pub attempt : ℕ
  pub parent_delivery_id : Option ℕ
  pub allow_retry : Bool

pub record DeliveryResult : Type 0 where
  pub success : Bool
  pub status_code : Option ℕ
  pub response_body : Option String
  pub error : Option String
  pub delivery_id : ℕ

abbrev pub body_of : String → ℕ → String → Body
body_of event now payload = record { event = event; timestamp = now; payload = payload }

abbrev pub send : World → Webhook → String → Body → Outcome
send env x event body =
    env.network (record { url = x.url; headers = headers env x event body; body = body })

-- The row that a delivery inserts, with its retry time.
abbrev pub new_delivery :
    World → Moment → Webhook → String → String → DeliverOpts → Outcome → ℕ → Delivery
new_delivery env m x event payload opts outcome id = record {
  id = id;
  webhook_id = x.id;
  workspace_id = x.workspace_id;
  event_type = event;
  body = body_of event m.now payload;
  status_code = status_of outcome;
  response_body = text_of env outcome;
  error = error_of outcome;
  attempt = opts.attempt;
  is_retry = ltb 0 opts.attempt;
  parent_delivery_id = opts.parent_delivery_id;
  next_retry_at = retry_at env m opts.attempt opts.allow_retry (is_success outcome);
  created_at = m.now;
}

unfoldable pub deliver_webhook :
    World
    → Moment
    → Webhook
    → String
    → String
    → DeliverOpts
    → WebhookDb
    → WebhookDb × DeliveryResult
unfolding after_attempt prune next_retry_delay
deliver_webhook env m x event payload opts db =
    let outcome = send env x event (body_of event m.now payload) in
    let row = new_delivery env m x event payload opts outcome db.next_delivery in
    let stamped = update_hooks x.id x.workspace_id (stamp m.now (status_of outcome)) db.webhooks in
    (
      record db {
        webhooks =
            if opts.allow_retry
            then after_attempt env.max_retries m.now opts.attempt x (is_success outcome) stamped
            else stamped;
        deliveries = prune env x (db.deliveries ++ row ∷ []);
        next_delivery = db.next_delivery + 1;
      },
      record {
        success = is_success outcome;
        status_code = status_of outcome;
        response_body = text_of env outcome;
        error = error_of outcome;
        delivery_id = db.next_delivery;
      },
    )
