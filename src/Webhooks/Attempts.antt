-- ===== src/Webhooks/Attempts.antt =====
-- An event is tried a bounded number of times.
use omni_mission_control.Prelude.{
  ℕ, ◌+◌, ◌<◌, ◌≡◌, refl, inl, inr, true, not, ◌||◌, Option, none, some, List, [], ◌∷◌, ◌++◌,
  String, filter, any, ◌==◌, arith, is_some, All, All-append, All-imp, All-filter, All-tested,
  All-take, get_or, Bool-cases, Option-cases,
}
use omni_mission_control.Webhooks.{Webhook, Delivery, WebhookDb, World, Moment, Outcome}
use omni_mission_control.Webhooks.Deliver.{
  DeliverOpts, of_hook, prune, new_delivery, deliver_webhook, send, body_of,
}
use omni_mission_control.Webhooks.Dispatch.{
  ServerEvent, deliver_all, fire_webhooks, on_server_event, is_matching, lookup, event_map,
  is_agent_error, hook_event_type,
}
use omni_mission_control.Webhooks.Retry.{
  is_due, attach, join_hooks, live_hook, pending_retries, clear, is_row, batch_size, RetryCount,
  counted, redeliver, process_webhook_retries,
}

-- An attempt's number is below `max`, and one that is to be tried again is below it by more than one.
abbrev pub IsBounded : ℕ → Delivery → Type 0
IsBounded max d = (d.attempt < max) × (is_some d.next_retry_at ≡ true → d.attempt + 1 < max)

new_delivery-IsBounded :
    (env : World) (m : Moment) (x : Webhook) (event payload : String) (opts : DeliverOpts)
    (o : Outcome) (id : ℕ)
    → opts.attempt < env.max_retries
    → IsBounded env.max_retries (new_delivery env m x event payload opts o id)
new_delivery-IsBounded env m x event payload opts o id l = (l, λ h. ground arith)

pub prune-All :
    (P : Delivery → Type 0) (env : World) (x : Webhook) (ds : List Delivery)
    → All P ds
    → All P (prune env x ds)
unfolding prune
prune-All P env x ds a =
    All-filter P
      (λ d. not (of_hook x d) || any (λ i. d.id == i) (env.recent (filter (of_hook x) ds))) ds a

deliver_webhook-IsBounded :
    (env : World) (m : Moment) (x : Webhook) (event payload : String) (opts : DeliverOpts)
    (db : WebhookDb)
    → opts.attempt < env.max_retries
    → All (IsBounded env.max_retries) db.deliveries
    → All (IsBounded env.max_retries) (deliver_webhook env m x event payload opts db).0.deliveries
unfolding deliver_webhook
deliver_webhook-IsBounded env m x event payload opts db l a =
    let o : Outcome = send env x event (body_of event m.now payload) in
    prune-All (IsBounded env.max_retries) env x
      (db.deliveries ++ new_delivery env m x event payload opts o db.next_delivery ∷ [])
      (All-append (IsBounded env.max_retries) db.deliveries
        (new_delivery env m x event payload opts o db.next_delivery ∷ []) a
        (new_delivery-IsBounded env m x event payload opts o db.next_delivery l, tt))

deliver_all-IsBounded :
    (env : World) (clock : ℕ → Moment) (event payload : String) (xs : List Webhook) (db : WebhookDb)
    → 0 < env.max_retries
    → All (IsBounded env.max_retries) db.deliveries
    → All (IsBounded env.max_retries) (deliver_all env clock event payload xs db).deliveries
unfolding deliver_all
deliver_all-IsBounded env clock event payload [] db l a = a
deliver_all-IsBounded env clock event payload (x ∷ xs) db l a =
    let opts : DeliverOpts = record {
      attempt = 0;
      parent_delivery_id = none;
      allow_retry = true;
    } in
    deliver_all-IsBounded env clock event payload xs
      (deliver_webhook env (clock db.next_delivery) x event payload opts db).0 l
      (deliver_webhook-IsBounded env (clock db.next_delivery) x event payload opts db l a)

fire_webhooks-IsBounded :
    (env : World) (clock : ℕ → Moment) (event payload : String) (w : ℕ) (db : WebhookDb)
    → 0 < env.max_retries
    → All (IsBounded env.max_retries) db.deliveries
    → All (IsBounded env.max_retries) (fire_webhooks env clock event payload w db).deliveries
unfolding fire_webhooks
fire_webhooks-IsBounded env clock event payload w db =
    deliver_all-IsBounded env clock event payload (filter (is_matching event w) db.webhooks) db

on_server_event-IsBounded :
    (env : World) (clock : ℕ → Moment) (e : ServerEvent) (db : WebhookDb)
    → 0 < env.max_retries
    → All (IsBounded env.max_retries) db.deliveries
    → All (IsBounded env.max_retries) (on_server_event env clock e db).deliveries
unfolding on_server_event
on_server_event-IsBounded env clock e db l a = elim (Option-cases (lookup e.event_type event_map)) [
  | inl n ↦ rw (n, on_server_event) a
  | inr (mapping, s) ↦
      let w : ℕ = get_or e.workspace_id 1 in
      let fired : WebhookDb = fire_webhooks env clock (hook_event_type mapping e) e.payload w db in
      let b : All (IsBounded env.max_retries) fired.deliveries =
        fire_webhooks-IsBounded env clock (hook_event_type mapping e) e.payload w db l a in
      elim (Bool-cases (is_agent_error e)) [
        | inl g ↦
            rw (s, g, on_server_event)
              (fire_webhooks-IsBounded env clock "agent.error" e.payload w fired l b)
        | inr g ↦ rw (s, g, on_server_event) b
      ]
]

abbrev CanRetry : ℕ → Delivery × Webhook → Type 0
CanRetry max p = (p.0).attempt + 1 < max

attach-CanRetry :
    (max : ℕ) (d : Delivery) (o : Option Webhook) (ps : List (Delivery × Webhook))
    → d.attempt + 1 < max
    → All (CanRetry max) ps
    → All (CanRetry max) (attach d o ps)
attach-CanRetry max d none ps l a = a
attach-CanRetry max d (some x) ps l a = (l, a)

join_hooks-CanRetry :
    (max : ℕ) (hooks : List Webhook) (ds : List Delivery)
    → All (λ d. d.attempt + 1 < max) ds
    → All (CanRetry max) (join_hooks hooks ds)
join_hooks-CanRetry max hooks [] a = tt
join_hooks-CanRetry max hooks (d ∷ ds) (l, a) =
    attach-CanRetry max d (live_hook hooks d) (join_hooks hooks ds) l
      (join_hooks-CanRetry max hooks ds a)

no_due : (d : Delivery) (now : ℕ) → d.next_retry_at ≡ none → is_due now d ≡ true → ⊥
no_due d now e h = ground arith

due_some : (d : Delivery) (now : ℕ) → is_due now d ≡ true → is_some d.next_retry_at ≡ true
due_some d now h = elim (Option-cases (d.next_retry_at)) [
  | inl e ↦ absurd (no_due d now e h)
  | inr (t, e) ↦ rw e refl
]

pending_retries-CanRetry :
    (max now : ℕ) (db : WebhookDb)
    → All (IsBounded max) db.deliveries
    → All (CanRetry max) (pending_retries now db)
unfolding pending_retries
pending_retries-CanRetry max now db a =
    All-take (CanRetry max) batch_size (join_hooks db.webhooks (filter (is_due now) db.deliveries))
      (join_hooks-CanRetry max db.webhooks (filter (is_due now) db.deliveries) (
        All-tested (λ d. d.attempt + 1 < max) (is_due now) db.deliveries
          (All-imp (IsBounded max) (λ d. is_due now d ≡ true → d.attempt + 1 < max) db.deliveries
            (λ d b h. b.1 (due_some d now h)) a)))

clear-IsBounded :
    (max : ℕ) (ps : List (Delivery × Webhook)) (ds : List Delivery)
    → All (IsBounded max) ds
    → All (IsBounded max) (clear ps ds)
clear-IsBounded max ps [] a = tt
clear-IsBounded max ps (d ∷ ds) (b, a) = elim (Bool-cases (any (is_row d) ps)) [
  | inl e ↦ rw e ((b.0, λ h. absurd (cc)), clear-IsBounded max ps ds a)
  | inr e ↦ rw e (b, clear-IsBounded max ps ds a)
]

redeliver-IsBounded :
    (env : World) (clock : ℕ → Moment) (ps : List (Delivery × Webhook)) (db : WebhookDb)
    (c : RetryCount)
    → All (CanRetry env.max_retries) ps
    → All (IsBounded env.max_retries) db.deliveries
    → All (IsBounded env.max_retries) (redeliver env clock ps db c).0.deliveries
unfolding redeliver
redeliver-IsBounded env clock [] db c r a = a
redeliver-IsBounded env clock ((d, x) ∷ ps) db c (l, r) a =
    let opts : DeliverOpts = record {
      attempt = d.attempt + 1;
      parent_delivery_id = some d.id;
      allow_retry = true;
    } in
    let (db', result) =
      deliver_webhook env (clock db.next_delivery) x d.event_type d.body.payload opts db in
    redeliver-IsBounded env clock ps db' (counted result.success c) r (
      deliver_webhook-IsBounded env (clock db.next_delivery) x d.event_type d.body.payload opts db l
        a)

process_webhook_retries-IsBounded :
    (env : World) (clock : ℕ → Moment) (now : ℕ) (db : WebhookDb)
    → All (IsBounded env.max_retries) db.deliveries
    → All (IsBounded env.max_retries) (process_webhook_retries env clock now db).0.deliveries
unfolding process_webhook_retries
process_webhook_retries-IsBounded env clock now db a =
    let ps : List (Delivery × Webhook) = pending_retries now db in
    redeliver-IsBounded env clock ps (record db { deliveries = clear ps db.deliveries })
      (record { succeeded = 0; failed = 0 }) (pending_retries-CanRetry env.max_retries now db a)
      (clear-IsBounded env.max_retries ps db.deliveries a)

-- An event on the bus, or a run of the scheduler at a time.
pub data Step : Type 0 where
  event : ServerEvent → Step
  tick : ℕ → Step

unfoldable pub run_steps : World → (ℕ → Moment) → List Step → WebhookDb → WebhookDb
run_steps env clock [] db = db
run_steps env clock (event e ∷ ss) db = run_steps env clock ss (on_server_event env clock e db)
run_steps env clock (tick now ∷ ss) db =
    run_steps env clock ss (process_webhook_retries env clock now db).0

-- Whatever events come and whenever the retries run, if at least one attempt is allowed and this holds
-- at the start: no event is tried more often than allowed, that is, the attempts of the deliveries stay below `max_retries`, and the last one is not tried again.
pub run_steps-IsBounded :
    (env : World) (clock : ℕ → Moment) (ss : List Step) (db : WebhookDb)
    → 0 < env.max_retries
    → All (IsBounded env.max_retries) db.deliveries
    → All (IsBounded env.max_retries) (run_steps env clock ss db).deliveries
unfolding run_steps
run_steps-IsBounded env clock [] db l a = a
run_steps-IsBounded env clock (event e ∷ ss) db l a =
    run_steps-IsBounded env clock ss (on_server_event env clock e db) l
      (on_server_event-IsBounded env clock e db l a)
run_steps-IsBounded env clock (tick now ∷ ss) db l a =
    run_steps-IsBounded env clock ss (process_webhook_retries env clock now db).0 l
      (process_webhook_retries-IsBounded env clock now db a)
