-- ===== src/Webhooks/Retry.antt =====
-- `processWebhookRetries` of src/lib/webhooks.ts. `clock` gives the moment of the delivery that gets an
-- id, `now` the one at which the pending retries are read.
use omni_mission_control.Prelude.{
  ℕ, ◌+◌, Bool, true, false, ◌&&◌, Option, none, some, List, [], ◌∷◌, map, filter, take, any, leb,
  ◌==◌, if◌then◌else◌,
}
use omni_mission_control.Webhooks.{Webhook, Delivery, WebhookDb, World, Moment, find_hook}
use omni_mission_control.Webhooks.Deliver.{deliver_webhook}

abbrev pub is_due : ℕ → Delivery → Bool
is_due now d = elim (d.next_retry_at) [ none ↦ false | some t ↦ leb t now ]

-- The join: the webhook of the delivery, if it is enabled.
abbrev pub live_hook : List Webhook → Delivery → Option Webhook
live_hook hooks d = elim (find_hook d.webhook_id d.workspace_id hooks) [
  | none ↦ none
  | some x ↦ if x.enabled then some x else none
]

abbrev pub attach :
    Delivery → Option Webhook → List (Delivery × Webhook) → List (Delivery × Webhook)
attach d none rest = rest
attach d (some x) rest = (d, x) ∷ rest

abbrev pub join_hooks : List Webhook → List Delivery → List (Delivery × Webhook)
join_hooks hooks [] = []
join_hooks hooks (d ∷ ds) = attach d (live_hook hooks d) (join_hooks hooks ds)

abbrev pub batch_size : ℕ
batch_size = 50

unfoldable pub pending_retries : ℕ → WebhookDb → List (Delivery × Webhook)
pending_retries now db =
    take batch_size (join_hooks db.webhooks (filter (is_due now) db.deliveries))

-- `UPDATE webhook_deliveries SET next_retry_at = NULL WHERE id = ? AND workspace_id = ?`, for each row.
abbrev pub is_row : Delivery → Delivery × Webhook → Bool
is_row d p = d.id == (p.0).id && d.workspace_id == (p.0).workspace_id

abbrev pub clear : List (Delivery × Webhook) → List Delivery → List Delivery
clear ps = map (λ d. if any (is_row d) ps then record d { next_retry_at = none } else d)

pub record RetryCount : Type 0 where
  pub succeeded : ℕ
  pub failed : ℕ

abbrev pub counted : Bool → RetryCount → RetryCount
counted success c =
    if success then record c { succeeded = c.succeeded + 1 } else record c { failed = c.failed + 1 }

unfoldable pub redeliver :
    World
    → (ℕ → Moment)
    → List (Delivery × Webhook)
    → WebhookDb
    → RetryCount
    → WebhookDb × RetryCount
redeliver env clock [] db c = (db, c)
redeliver env clock ((d, x) ∷ ps) db c =
    let (db', result) =
      deliver_webhook env (clock db.next_delivery) x d.event_type d.body.payload
        (record { attempt = d.attempt + 1; parent_delivery_id = some d.id; allow_retry = true })
        db in
    redeliver env clock ps db' (counted result.success c)

unfoldable pub process_webhook_retries :
    World → (ℕ → Moment) → ℕ → WebhookDb → WebhookDb × RetryCount
unfolding pending_retries redeliver
process_webhook_retries env clock now db =
    let ps = pending_retries now db in
    redeliver env clock ps (record db { deliveries = clear ps db.deliveries })
      (record { succeeded = 0; failed = 0 })
