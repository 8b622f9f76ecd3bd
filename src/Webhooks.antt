-- ===== src/Webhooks.antt =====
-- src/lib/webhooks.ts: matching an event with the webhooks, delivering it, scheduling retries and the
-- circuit breaker. The network, the signature and the random numbers are arguments; the deliveries
-- that the source starts side by side are made one after the other.
pub mod Deliver
pub mod Dispatch
pub mod Retry
pub mod Delay
pub mod Attempts
pub mod Breaker
pub mod Once
pub mod Signature
mod Tests
use omni_mission_control.Prelude.{
  ℕ, ◌+◌, ◌-◌, ◌*◌, ◌/◌, ◌≤◌, ◌≡◌, Bool, true, false, not, ◌&&◌, ◌||◌, Option, none, some, List, [],
  ◌∷◌, ◌++◌, String, map, find?, filter, any, length, ltb, leb, ◌==◌, str_eq, if◌then◌else◌, get_or,
  get_elem?, min, concat, truthy, All,
}

-- A row of `webhooks`. `events` is `none` where the column holds no JSON array.
pub record Webhook : Type 0 where
  pub id : ℕ
  pub workspace_id : ℕ
  pub name : String
  pub url : String
  pub secret : Option String
  pub events : Option (List String)
  pub enabled : Bool
  pub consecutive_failures : ℕ
  pub last_fired_at : Option ℕ
  pub last_status : Option (Option ℕ)
  pub updated_at : ℕ

-- What is sent. `payload` is the text of a JSON object.
pub record Body : Type 0 where
  pub event : String
  pub timestamp : ℕ
  pub payload : String

-- A row of `webhook_deliveries`.
pub record Delivery : Type 0 where
  pub id : ℕ
  pub webhook_id : ℕ
  pub workspace_id : ℕ
  pub event_type : String
  pub body : Body
  pub status_code : Option ℕ
  pub response_body : Option String
  pub error : Option String
  pub attempt : ℕ
  pub is_retry : Bool
  pub parent_delivery_id : Option ℕ
  pub next_retry_at : Option ℕ
  pub created_at : ℕ

pub record WebhookDb : Type 0 where
  pub webhooks : List Webhook
  pub deliveries : List Delivery
  pub next_delivery : ℕ

pub record HttpRequest : Type 0 where
  pub url : String
  pub headers : List (String × String)
  pub body : Body

-- How `fetch` ends: a status and the text of the answer, if it can be read, or an error's message.
pub data Outcome : Type 0 where
  answered : ℕ → Option String → Outcome
  failed : String → Outcome

-- What the code takes from outside: the network, the HMAC of a body, how a text is cut to 1000 code
-- units, and the ids of the newest 200 of a list of deliveries.
pub record World : Type 0 where
  pub network : HttpRequest → Outcome
  pub sign : String → Body → String
  pub shorten : String → String
  pub recent : List Delivery → List ℕ
  pub max_retries : ℕ

-- The moment of a delivery: the clock in seconds, and a random number as a numerator over 2 ^ 53.
pub record Moment : Type 0 where
  pub now : ℕ
  pub random : ℕ

abbrev pub backoff_seconds : List ℕ
backoff_seconds = 30 ∷ 300 ∷ 1800 ∷ 7200 ∷ 28800 ∷ []

abbrev pub random_range : ℕ
random_range = 9007199254740992

-- `Math.round(base + base * 0.2 * (2 * r - 1))`, in exact arithmetic: the fraction is
-- `base * (4 + 2 * r) / 5`.
unfoldable pub next_retry_delay : ℕ → ℕ → ℕ
next_retry_delay attempt random =
    let base = get_or (get_elem? backoff_seconds (min attempt (length backoff_seconds - 1))) 0 in
    (base * (8 * random_range + 4 * random) + 5 * random_range) / (10 * random_range)

abbrev pub headers : World → Webhook → String → Body → List (String × String)
headers env w event body =
    ("Content-Type", "application/json")
    ∷ ("User-Agent", "MissionControl-Webhook/1.0")
    ∷ ("X-MC-Event", event)
    ∷ elim (truthy w.secret) [
      | none ↦ []
      | some secret ↦ ("X-MC-Signature", concat "sha256=" (env.sign secret body)) ∷ []
    ]

-- `verifyWebhookSignature`, whose comparison is of the bytes; its timing is not modelled.
unfoldable pub verify_webhook_signature : World → Option String → Body → Option String → Bool
verify_webhook_signature env secret body header = elim (truthy header) [
  | none ↦ false
  | some signature ↦ elim (truthy secret) [
    | none ↦ false
    | some key ↦ str_eq signature (concat "sha256=" (env.sign key body))
  ]
]

abbrev pub status_of : Outcome → Option ℕ
status_of (answered status text) = some status
status_of (failed message) = none

abbrev pub error_of : Outcome → Option String
error_of (answered status text) = none
error_of (failed message) = some message

abbrev pub text_of : World → Outcome → Option String
text_of env (answered status none) = none
text_of env (answered status (some text)) = some (env.shorten text)
text_of env (failed message) = none

abbrev pub is_success : Outcome → Bool
is_success (answered status text) = leb 200 status && ltb status 300
is_success (failed message) = false

abbrev pub is_hook : ℕ → ℕ → Webhook → Bool
is_hook id w x = x.id == id && x.workspace_id == w

abbrev pub find_hook : ℕ → ℕ → List Webhook → Option Webhook
find_hook id w = find? (is_hook id w)

-- `UPDATE webhooks SET … WHERE id = ? AND workspace_id = ?`
abbrev pub update_hooks : ℕ → ℕ → (Webhook → Webhook) → List Webhook → List Webhook
update_hooks id w f = map (λ x. if is_hook id w x then f x else x)

abbrev pub stamp : ℕ → Option ℕ → Webhook → Webhook
stamp now status x = record x {
  last_fired_at = some now;
  last_status = some status;
  updated_at = now;
}

abbrev pub reset_failures : Webhook → Webhook
reset_failures x = record x { consecutive_failures = 0 }

abbrev pub add_failure : Webhook → Webhook
add_failure x = record x { consecutive_failures = x.consecutive_failures + 1 }

abbrev pub disable : ℕ → Webhook → Webhook
disable now x = record x { enabled = false; updated_at = now }

abbrev pub trips : ℕ → Option Webhook → Bool
trips max none = false
trips max (some x) = leb max x.consecutive_failures
