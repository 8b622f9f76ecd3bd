-- ===== src/Webhooks/Tests.antt =====
-- Runs of the webhook code, and instances of its theorems.
use omni_mission_control.Prelude.{
  ℕ, ◌*◌, ◌≤◌, ◌≡◌, refl, true, false, none, some, [], ◌∷◌, arith, All, map,
}
use omni_mission_control.Webhooks.{
  Webhook, Delivery, WebhookDb, World, Moment, failed, next_retry_delay, find_hook, stamp, headers,
  verify_webhook_signature,
}
use omni_mission_control.Webhooks.Deliver.{after_attempt, prune, deliver_webhook}
use omni_mission_control.Webhooks.Dispatch.{
  ServerEvent, lookup, deliver_all, fire_webhooks, on_server_event,
}
use omni_mission_control.Webhooks.Retry.{pending_retries, redeliver, process_webhook_retries}
use omni_mission_control.Webhooks.Delay.{next_retry_delay-bounds}
use omni_mission_control.Webhooks.Attempts.{IsBounded, event, tick, run_steps, run_steps-IsBounded}
use omni_mission_control.Webhooks.Breaker.{
  judged, deliver_webhook-judged, retryable, try_from, try_from-disables,
}
use omni_mission_control.Webhooks.Once.{IsCleared, process_webhook_retries-IsCleared}
use omni_mission_control.Webhooks.Signature.{verify_webhook_signature-headers}

abbrev hook : Webhook
hook = record {
  id = 1;
  workspace_id = 2;
  name = "ci";
  url = "https://ci.example/hook";
  secret = some "k";
  events = some ("activity.task_created" ∷ []);
  enabled = true;
  consecutive_failures = 0;
  last_fired_at = none;
  last_status = none;
  updated_at = 5;
}

-- A network that is down, a signature that is the secret, and a database that keeps all rows.
abbrev down : World
down = record {
  network = λ r. failed "Timeout (10s)";
  sign = λ secret body. secret;
  shorten = λ s. s;
  recent = map (λ d. d.id);
  max_retries = 5;
}

abbrev clock : ℕ → Moment
clock id = record { now = 1000 * id; random = 0 }

abbrev db : WebhookDb
db = record { webhooks = hook ∷ []; deliveries = []; next_delivery = 1 }

abbrev task_created : ServerEvent
task_created = record {
  event_type = "task.created";
  type = none;
  action = none;
  status = none;
  workspace_id = some 2;
  payload = "{}";
}

abbrev pending : Delivery
pending = record {
  id = 1;
  webhook_id = 1;
  workspace_id = 2;
  event_type = "activity.task_created";
  body = record { event = "activity.task_created"; timestamp = 1000; payload = "{}" };
  status_code = none;
  response_body = none;
  error = some "Timeout (10s)";
  attempt = 0;
  is_retry = false;
  parent_delivery_id = none;
  next_retry_at = some 1024;
  created_at = 1000;
}

abbrev failed_once : WebhookDb
failed_once = record {
  webhooks = record hook { consecutive_failures = 1 } ∷ [];
  deliveries = pending ∷ [];
  next_delivery = 2;
}

-- The event reaches the webhook, and its delivery waits for a retry.
event_delivered : (on_server_event down clock task_created db).deliveries ≡ pending ∷ []
unfolding on_server_event fire_webhooks deliver_all deliver_webhook after_attempt prune
    next_retry_delay
event_delivered = refl

-- A retry is one more attempt.
retried :
    map (λ d. d.attempt) (process_webhook_retries down clock 1030 failed_once).0.deliveries
    ≡ 0 ∷ 1 ∷ []
unfolding process_webhook_retries pending_retries redeliver deliver_webhook after_attempt prune
    next_retry_delay
retried = refl

longest_step : next_retry_delay 3 7 ≤ 8_640
longest_step = omega (arith, next_retry_delay-bounds 3 7 (omega arith))

run_steps-IsBounded_example :
    All (IsBounded 5) (run_steps down clock (event task_created ∷ tick 1030 ∷ []) db).deliveries
run_steps-IsBounded_example =
    run_steps-IsBounded down clock (event task_created ∷ tick 1030 ∷ []) db (omega arith) tt

deliver_webhook-judged_example :
    find_hook 1 2 (deliver_webhook down (clock 1) hook "ping" "{}" (retryable 0) db).0.webhooks
    ≡ some (judged 5 1000 0 false (stamp 1000 none hook))
deliver_webhook-judged_example =
    deliver_webhook-judged down (clock 1) hook hook "ping" "{}" (retryable 0) db refl

try_from-disables_example :
    (z : Webhook) × (find_hook 1 2 (try_from down clock hook "ping" "{}" 0 5 db).webhooks ≡ some z)
    × (z.enabled ≡ false)
try_from-disables_example =
    try_from-disables down clock hook hook "ping" "{}" 0 4 db (λ r. refl) refl (omega arith) refl

process_webhook_retries-IsCleared_example :
    All
      (IsCleared (pending_retries 1030 failed_once))
      (process_webhook_retries down clock 1030 failed_once).0.deliveries
process_webhook_retries-IsCleared_example =
    process_webhook_retries-IsCleared down clock 1030 failed_once (omega arith, tt)

verify_webhook_signature-headers_example :
    verify_webhook_signature down
      (some "k")
      pending.body
      (lookup "X-MC-Signature" (headers down hook "activity.task_created" pending.body))
    ≡ true
verify_webhook_signature-headers_example =
    verify_webhook_signature-headers down hook "activity.task_created" "k" pending.body refl
