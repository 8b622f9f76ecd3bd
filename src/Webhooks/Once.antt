-- ===== src/Webhooks/Once.antt =====
-- A retry that has been picked up is not picked up again.
use omni_mission_control.Prelude.{
  ℕ, ◌+◌, ◌<◌, ◌≡◌, refl, inl, inr, Bool, true, false, Option, none, some, List, [], ◌∷◌, ◌++◌, any,
  arith, All, All-append, All-imp, All-filter, All-take, Bool-cases, filter,
}
use omni_mission_control.Webhooks.{Webhook, Delivery, WebhookDb, World, Moment, Outcome}
use omni_mission_control.Webhooks.Deliver.{
  DeliverOpts, new_delivery, deliver_webhook, send, body_of,
}
use omni_mission_control.Webhooks.Retry.{
  is_due, attach, join_hooks, live_hook, pending_retries, clear, is_row, batch_size, RetryCount,
  counted, redeliver, process_webhook_retries,
}
use omni_mission_control.Webhooks.Attempts.{prune-All}

-- A delivery of the batch waits for no further retry.
abbrev pub IsCleared : List (Delivery × Webhook) → Delivery → Type 0
IsCleared ps d = any (is_row d) ps ≡ true → d.next_retry_at ≡ none

not_both : (b : Bool) → b ≡ false → b ≡ true → ⊥
not_both b e h = cc

clear-IsCleared :
    (ps : List (Delivery × Webhook)) (ds : List Delivery) → All (IsCleared ps) (clear ps ds)
clear-IsCleared ps [] = tt
clear-IsCleared ps (d ∷ ds) = elim (Bool-cases (any (is_row d) ps)) [
  | inl e ↦ rw e ((λ h. refl), clear-IsCleared ps ds)
  | inr e ↦ rw e ((λ h. absurd (not_both (any (is_row d) ps) e h)), clear-IsCleared ps ds)
]

is_row-new :
    (d : Delivery) (ps : List (Delivery × Webhook))
    → All (λ p. (p.0).id < d.id) ps
    → any (is_row d) ps ≡ false
is_row-new d [] a = refl
is_row-new d (p ∷ ps) (l, a) = ground (arith, is_row-new d ps a)

redeliver-IsCleared :
    (env : World) (clock : ℕ → Moment) (qs ps : List (Delivery × Webhook)) (db : WebhookDb)
    (c : RetryCount)
    → All (λ p. (p.0).id < db.next_delivery) qs
    → All (IsCleared qs) db.deliveries
    → All (IsCleared qs) (redeliver env clock ps db c).0.deliveries
unfolding redeliver deliver_webhook
redeliver-IsCleared env clock qs [] db c b a = a
redeliver-IsCleared env clock qs ((d, x) ∷ ps) db c b a =
    let opts : DeliverOpts = record {
      attempt = d.attempt + 1;
      parent_delivery_id = some d.id;
      allow_retry = true;
    } in
    let m : Moment = clock db.next_delivery in
    let o : Outcome = send env x d.event_type (body_of d.event_type m.now d.body.payload) in
    let row : Delivery = new_delivery env m x d.event_type d.body.payload opts o db.next_delivery in
    let (db', result) = deliver_webhook env m x d.event_type d.body.payload opts db in
    redeliver-IsCleared env clock qs ps db' (counted result.success c)
      (All-imp (λ p. (p.0).id < db.next_delivery) (λ p. (p.0).id < db.next_delivery + 1) qs
        (λ p l. omega arith) b)
      (prune-All (IsCleared qs) env x (db.deliveries ++ row ∷ []) (
        All-append (IsCleared qs) db.deliveries (row ∷ []) a
          (λ h. absurd (not_both (any (is_row row) qs) (is_row-new row qs b) h), tt)))

attach-All :
    (n : ℕ) (d : Delivery) (o : Option Webhook) (ps : List (Delivery × Webhook))
    → d.id < n
    → All (λ p. (p.0).id < n) ps
    → All (λ p. (p.0).id < n) (attach d o ps)
attach-All n d none ps l a = a
attach-All n d (some x) ps l a = (l, a)

join_hooks-All :
    (n : ℕ) (hooks : List Webhook) (ds : List Delivery)
    → All (λ d. d.id < n) ds
    → All (λ p. (p.0).id < n) (join_hooks hooks ds)
join_hooks-All n hooks [] a = tt
join_hooks-All n hooks (d ∷ ds) (l, a) =
    attach-All n d (live_hook hooks d) (join_hooks hooks ds) l (join_hooks-All n hooks ds a)

-- After a run of the retries, no delivery of its batch waits for a retry, whatever the outcomes: where
-- the ids of the deliveries are below the next one, a failure schedules the new delivery, not the old.
pub process_webhook_retries-IsCleared :
    (env : World) (clock : ℕ → Moment) (now : ℕ) (db : WebhookDb)
    → All (λ d. d.id < db.next_delivery) db.deliveries
    → All
        (IsCleared (pending_retries now db))
        (process_webhook_retries env clock now db).0.deliveries
unfolding process_webhook_retries pending_retries
process_webhook_retries-IsCleared env clock now db a =
    let due : List Delivery = filter (is_due now) db.deliveries in
    let ps : List (Delivery × Webhook) = pending_retries now db in
    redeliver-IsCleared env clock ps ps (record db { deliveries = clear ps db.deliveries })
      (record { succeeded = 0; failed = 0 })
      (All-take (λ p. (p.0).id < db.next_delivery) batch_size (join_hooks db.webhooks due)
        (join_hooks-All db.next_delivery db.webhooks due
          (All-filter (λ d. d.id < db.next_delivery) (is_due now) db.deliveries a)))
      (clear-IsCleared ps db.deliveries)
