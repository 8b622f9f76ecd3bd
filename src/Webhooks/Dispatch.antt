-- ===== src/Webhooks/Dispatch.antt =====
-- `initWebhookListener` and `fireWebhooksAsync` of src/lib/webhooks.ts. `clock` gives the moment of the
-- delivery that gets an id.
use omni_mission_control.Prelude.{
  ℕ, Bool, true, false, ◌&&◌, ◌||◌, Option, none, some, List, [], ◌∷◌, String, filter, any, ◌==◌,
  str_eq, if◌then◌else◌, get_or, truthy, concat,
}
use omni_mission_control.Webhooks.{Webhook, WebhookDb, World, Moment}
use omni_mission_control.Webhooks.Deliver.{deliver_webhook}

-- What the listener reads of an event's data, and the data's JSON text.
pub record ServerEvent : Type 0 where
  pub event_type : String
  pub type : Option String
  pub action : Option String
  pub status : Option String
  pub workspace_id : Option ℕ
  pub payload : String

abbrev pub event_map : List (String × String)
event_map =
    ("activity.created", "activity")
    ∷ ("notification.created", "notification")
    ∷ ("agent.status_changed", "agent.status_change")
    ∷ ("audit.security", "security")
    ∷ ("task.created", "activity.task_created")
    ∷ ("task.updated", "activity.task_updated")
    ∷ ("task.deleted", "activity.task_deleted")
    ∷ ("task.status_changed", "activity.task_status_changed")
    ∷ []

abbrev pub lookup : String → List (String × String) → Option String
lookup key [] = none
lookup key (p ∷ ps) = let rest = lookup key ps in if str_eq p.0 key then some p.1 else rest

-- `prefix.name` where there is a name, and the prefix otherwise.
abbrev pub qualified : String → Option String → String
qualified prefix none = prefix
qualified prefix (some name) = concat prefix (concat "." name)

abbrev pub hook_event_type : String → ServerEvent → String
hook_event_type mapping e =
    if str_eq mapping "activity"
    then qualified mapping (truthy e.type)
    else if str_eq mapping "notification"
    then qualified mapping (truthy e.type)
    else if str_eq mapping "security"
    then qualified mapping (truthy e.action)
    else mapping

abbrev pub is_agent_error : ServerEvent → Bool
is_agent_error e = str_eq e.event_type "agent.status_changed" && str_eq (get_or e.status "") "error"

abbrev pub listed : String → Option (List String) → Bool
listed event none = false
listed event (some events) = any (λ e. str_eq e "*") events || any (λ e. str_eq e event) events

abbrev pub is_matching : String → ℕ → Webhook → Bool
is_matching event w x = x.enabled && x.workspace_id == w && listed event x.events

unfoldable pub deliver_all :
    World → (ℕ → Moment) → String → String → List Webhook → WebhookDb → WebhookDb
deliver_all env clock event payload [] db = db
deliver_all env clock event payload (x ∷ xs) db =
    deliver_all env clock event payload xs
      (deliver_webhook env (clock db.next_delivery) x event payload
        (record { attempt = 0; parent_delivery_id = none; allow_retry = true }) db).0

unfoldable pub fire_webhooks : World → (ℕ → Moment) → String → String → ℕ → WebhookDb → WebhookDb
unfolding deliver_all
fire_webhooks env clock event payload w db =
    deliver_all env clock event payload (filter (is_matching event w) db.webhooks) db

unfoldable pub on_server_event : World → (ℕ → Moment) → ServerEvent → WebhookDb → WebhookDb
unfolding fire_webhooks
on_server_event env clock e db = elim (lookup e.event_type event_map) [
  | none ↦ db
  | some mapping ↦
      let w = get_or e.workspace_id 1 in
      let fired = fire_webhooks env clock (hook_event_type mapping e) e.payload w db in
      if is_agent_error e then fire_webhooks env clock "agent.error" e.payload w fired else fired
]
