-- ===== src/Webhooks/Breaker.antt =====
-- The circuit breaker of a webhook.
use omni_mission_control.Prelude.{
  ℕ, zero, suc, ◌+◌, ◌-◌, ◌≤◌, ◌≡◌, refl, ap, ◌∙◌, inl, inr, Bool, true, false, ◌||◌, none, some,
  List, [], ◌∷◌, String, leb, ltb, if◌then◌else◌, arith, Bool-cases,
}
use omni_mission_control.Webhooks.{
  Webhook, WebhookDb, World, Moment, Outcome, HttpRequest, is_hook, find_hook, update_hooks, stamp,
  reset_failures, add_failure, disable, trips, is_success, status_of, headers,
}
use omni_mission_control.Webhooks.Deliver.{
  DeliverOpts, after_attempt, deliver_webhook, send, body_of,
}

-- What an attempt that may be retried does to its webhook's row.
abbrev pub judged : ℕ → ℕ → ℕ → Bool → Webhook → Webhook
judged max now attempt true x = record x { consecutive_failures = 0 }
judged max now attempt false x =
    let stays = ltb attempt (max - 1) || ltb (x.consecutive_failures + 1) max in
    record x {
      consecutive_failures = x.consecutive_failures + 1;
      enabled = if stays then x.enabled else false;
      updated_at = if stays then x.updated_at else now;
    }

find_hook-update :
    (id w : ℕ) (f : Webhook → Webhook) (hooks : List Webhook) (x : Webhook)
    → ((y : Webhook) → ((f y).id ≡ y.id) × ((f y).workspace_id ≡ y.workspace_id))
    → find_hook id w hooks ≡ some x
    → find_hook id w (update_hooks id w f hooks) ≡ some (f x)
find_hook-update id w f [] x k h = cc
find_hook-update id w f (y ∷ hooks) x k h = elim (Bool-cases (is_hook id w y)) [
  | inl e ↦
      let same : y ≡ x = ground arith in
      let there : is_hook id w (f y) ≡ true = ground (arith, (k y).0, (k y).1) in
      rw (e, there) (ap (λ z. some (f z)) same)
  | inr e ↦ rw (e, e) (find_hook-update id w f hooks x k (rw e at h))
]

after_attempt_lem :
    (max now attempt : ℕ) (x y : Webhook) (success : Bool) (hooks : List Webhook)
    → find_hook x.id x.workspace_id hooks ≡ some y
    → find_hook x.id x.workspace_id (after_attempt max now attempt x success hooks)
      ≡ some (judged max now attempt success y)
unfolding after_attempt
after_attempt_lem max now attempt x y true hooks h =
    find_hook-update x.id x.workspace_id reset_failures hooks y (λ z. (refl, refl)) h
after_attempt_lem max now attempt x y false hooks h =
    let hooks' : List Webhook = update_hooks x.id x.workspace_id add_failure hooks in
    let counted : find_hook x.id x.workspace_id hooks' ≡ some (add_failure y) =
      find_hook-update x.id x.workspace_id add_failure hooks y (λ z. (refl, refl)) h in
    elim (Bool-cases (ltb attempt (max - 1))) [
      | inl e ↦ rw e counted
      | inr e ↦ elim (Bool-cases (leb max (y.consecutive_failures + 1))) [
        | inl g ↦
            let tripped : trips max (find_hook x.id x.workspace_id hooks') ≡ true = rw counted g in
            let full : ltb (y.consecutive_failures + 1) max ≡ false = ground arith in
            rw (e, tripped, full)
              (find_hook-update x.id x.workspace_id (disable now) hooks' (add_failure y)
                (λ z. (refl, refl)) counted)
        | inr g ↦
            let kept : trips max (find_hook x.id x.workspace_id hooks') ≡ false = rw counted g in
            let few : ltb (y.consecutive_failures + 1) max ≡ true = ground arith in
            rw (e, kept, few) counted
      ]
    ]

-- The row of the webhook after an attempt: it is stamped, and where the attempt may be retried, a
-- success sets the failures to 0 and a failure adds one; the webhook is disabled by the last attempt
-- of an event if the failures have then reached the number of attempts, and never otherwise.
pub deliver_webhook-judged :
    (env : World) (m : Moment) (x y : Webhook) (event payload : String) (opts : DeliverOpts)
    (db : WebhookDb)
    → find_hook x.id x.workspace_id db.webhooks ≡ some y
    → let o = send env x event (body_of event m.now payload) in
      let stamped = stamp m.now (status_of o) y in
      find_hook x.id x.workspace_id (deliver_webhook env m x event payload opts db).0.webhooks
      ≡ some (
          if opts.allow_retry
          then judged env.max_retries m.now opts.attempt (is_success o) stamped
          else stamped)
unfolding deliver_webhook
deliver_webhook-judged env m x y event payload opts db h =
    let o : Outcome = send env x event (body_of event m.now payload) in
    let hooks : List Webhook =
      update_hooks x.id x.workspace_id (stamp m.now (status_of o)) db.webhooks in
    let there : find_hook x.id x.workspace_id hooks ≡ some (stamp m.now (status_of o) y) =
      find_hook-update x.id x.workspace_id (stamp m.now (status_of o)) db.webhooks y
        (λ z. (refl, refl)) h in
    elim (Bool-cases (opts.allow_retry)) [
      | inl e ↦ rw e (
          after_attempt_lem env.max_retries m.now opts.attempt x (stamp m.now (status_of o) y)
            (is_success o) hooks there)
      | inr e ↦ rw e there
    ]

abbrev pub retryable : ℕ → DeliverOpts
retryable attempt = record { attempt = attempt; parent_delivery_id = none; allow_retry = true }

-- `n` attempts for one event, from an attempt on.
unfoldable pub try_from :
    World → (ℕ → Moment) → Webhook → String → String → ℕ → ℕ → WebhookDb → WebhookDb
try_from env clock x event payload attempt zero db = db
try_from env clock x event payload attempt (suc n) db =
    try_from env clock x event payload (attempt + 1) n
      (deliver_webhook env (clock db.next_delivery) x event payload (retryable attempt) db).0

-- The network answers no request with a success.
abbrev pub IsDown : World → Type 0
IsDown env = (r : HttpRequest) → is_success (env.network r) ≡ false

failed_attempt :
    (env : World) (m : Moment) (x y : Webhook) (event payload : String) (attempt : ℕ)
    (db : WebhookDb)
    → IsDown env
    → find_hook x.id x.workspace_id db.webhooks ≡ some y
    → find_hook x.id x.workspace_id
        (deliver_webhook env m x event payload (retryable attempt) db).0.webhooks
      ≡ some (
          judged env.max_retries m.now attempt false
            (stamp m.now (status_of (send env x event (body_of event m.now payload))) y))
failed_attempt env m x y event payload attempt db down h =
    deliver_webhook-judged env m x y event payload (retryable attempt) db h
    ∙ ap
        (λ b. some (
          judged env.max_retries m.now attempt b
            (stamp m.now (status_of (send env x event (body_of event m.now payload))) y)))
        (down (record {
          url = x.url;
          headers = headers env x event (body_of event m.now payload);
          body = body_of event m.now payload;
        }))

-- A webhook that is there and never answers with a success is disabled when an event has been tried as
-- often as allowed, from an attempt on whose number the failures so far have reached.
pub try_from-disables :
    (env : World) (clock : ℕ → Moment) (x y : Webhook) (event payload : String) (attempt n : ℕ)
    (db : WebhookDb)
    → IsDown env
    → find_hook x.id x.workspace_id db.webhooks ≡ some y
    → attempt ≤ y.consecutive_failures
    → attempt + suc n ≡ env.max_retries
    → (z : Webhook) × (find_hook x.id x.workspace_id
          (try_from env clock x event payload attempt (suc n) db).webhooks
        ≡ some z)
      × (z.enabled ≡ false)
unfolding try_from
try_from-disables env clock x y event payload attempt zero db down h l e =
    let m : Moment = clock db.next_delivery in
    let z : Webhook =
      judged env.max_retries m.now attempt false
        (stamp m.now (status_of (send env x event (body_of event m.now payload))) y) in
    (z, failed_attempt env m x y event payload attempt db down h, ground arith)
try_from-disables env clock x y event payload attempt (suc n) db down h l e =
    let m : Moment = clock db.next_delivery in
    let z : Webhook =
      judged env.max_retries m.now attempt false
        (stamp m.now (status_of (send env x event (body_of event m.now payload))) y) in
    try_from-disables env clock x z event payload (attempt + 1) n
      (deliver_webhook env m x event payload (retryable attempt) db).0 down
      (failed_attempt env m x y event payload attempt db down h) (omega arith) (omega arith)
