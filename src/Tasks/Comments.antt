-- ===== src/Tasks/Comments.antt =====
-- POST of src/app/api/tasks/[id]/comments/route.ts, after the role check, the limiter and the schema, with
-- the helpers of src/lib/db.ts that it calls.
use Prim.Native.Char.{code}
use omni_mission_control.Prelude.{
  ℕ, ◌+◌, Bool, true, not, ◌&&◌, ◌||◌, Option, none, some, List, [], ◌∷◌, ◌++◌, map, filter, any,
  String, str_eq, leb, ltb, js_length, ◌==◌, is_some, concat, if◌then◌else◌, get_or,
}
use omni_mission_control.Tasks.{
  Task, Notification, Activity, commented, TaskDb, find_task, log_activity, create_notification,
  ensure_task_subscription,
}

-- A row of `comments`. `mentions` is `none` where there are none.
pub record Comment : Type 0 where
  pub id : ℕ
  pub task_id : ℕ
  pub workspace_id : ℕ
  pub author : String
  pub content : String
  pub created_at : ℕ
  pub parent_id : Option ℕ
  pub mentions : Option (List String)

pub record CommentDb : Type 0 where
  pub base : TaskDb
  pub comments : List Comment
  pub next_comment : ℕ

-- A body that the schema accepts.
pub record NewComment : Type 0 where
  pub content : String
  pub author : Option String
  pub parent_id : Option ℕ

pub data CommentAnswer : Type 0 where
  comment : Comment → CommentAnswer
  error : String → ℕ → CommentAnswer

-- `\w`
unfoldable pub is_word : ℕ → Bool
is_word c = leb 48 c && leb c 57 || leb 65 c && leb c 90 || c == 95 || leb 97 c && leb c 122

abbrev pub flush : String → List String → List String
flush String.[] rest = rest
flush (String.◌∷◌ c s) rest = String.◌∷◌ c s ∷ rest

-- The words after an `@`, with the word that is being read.
unfoldable pub scan : Option String → String → List String
unfolding is_word
scan none String.[] = []
scan (some w) String.[] = flush w []
scan none (String.◌∷◌ c s) =
    let inside = scan (some "") s in
    let outside = scan none s in if code c == 64 then inside else outside
scan (some w) (String.◌∷◌ c s) =
    let longer = scan (some (concat w (String.◌∷◌ c ""))) s in
    let inside = scan (some "") s in
    let outside = scan none s in
    if is_word (code c) then longer else flush w (if code c == 64 then inside else outside)

-- `parseMentions`: the matches of `/@(\w+)/g`.
unfoldable pub parse_mentions : String → List String
unfolding scan
parse_mentions text = scan none text

abbrev pub member : String → List String → Bool
member x = any (λ y. str_eq y x)

-- The elements that are not among those seen, each once, in their order: what a `Set` holds.
unfoldable pub unseen : List String → List String → List String
unseen seen [] = []
unseen seen (x ∷ xs) =
    let rest = unseen seen xs in
    let new = unseen (x ∷ seen) xs in if member x seen then rest else x ∷ new

unfoldable pub get_task_subscribers : ℕ → ℕ → TaskDb → List String
get_task_subscribers id w db =
    if is_some (find_task id w db.tasks)
    then map (λ s. s.1) (filter (λ s. s.0 == id) db.subscriptions)
    else []

unfoldable pub subscribe_all : ℕ → ℕ → List String → TaskDb → TaskDb
unfolding ensure_task_subscription
subscribe_all id w [] db = db
subscribe_all id w (n ∷ ns) db = subscribe_all id w ns (ensure_task_subscription id n w db)

-- Who is subscribed: the author, those mentioned, and the one that the task is assigned to.
unfoldable pub subscribers_of : String → List String → Task → List String
subscribers_of author mentions t = author ∷ (mentions ++ get_or t.assigned_to "" ∷ [])

-- The first 100 code units, which `shorten` gives, and dots where there are more.
unfoldable pub excerpt : (String → String) → String → String
unfolding js_length
excerpt shorten content =
    concat (shorten content) (if ltb 100 (js_length content) then "..." else "")

unfoldable pub comment_notification :
    (String → String) → Comment → Task → String → Bool → Notification
unfolding excerpt
comment_notification shorten c t recipient is_mention =
    let said = concat " on \"" (concat t.title (concat "\": " (excerpt shorten c.content))) in
    record {
      recipient = recipient;
      kind = if is_mention then "mention" else "comment";
      title = if is_mention then "You were mentioned" else "New comment on a subscribed task";
      message = concat c.author (
          if is_mention
          then concat " mentioned you in a comment" said
          else concat " commented" said);
      source_id = c.id;
      created_at = c.created_at;
      workspace_id = c.workspace_id;
    }

unfoldable pub notify_all :
    (String → String) → Comment → Task → List String → List String → TaskDb → TaskDb
unfolding comment_notification create_notification
notify_all shorten c t mentions [] db = db
notify_all shorten c t mentions (s ∷ ss) db =
    notify_all shorten c t mentions ss
      (create_notification (comment_notification shorten c t s (member s mentions)) db)

-- The subscribers at that moment, without the author.
unfoldable pub recipients : ℕ → ℕ → String → TaskDb → List String
unfolding get_task_subscribers unseen
recipients id w author db =
    filter (λ s. not (str_eq s author)) (unseen [] (get_task_subscribers id w db))

abbrev pub has_parent : ℕ → ℕ → Option ℕ → List Comment → Bool
has_parent task_id w none cs = true
has_parent task_id w (some p) cs =
    p == 0 || any (λ c. c.id == p && c.task_id == task_id && c.workspace_id == w) cs

-- `parent_id || null`
abbrev pub parent_or_null : Option ℕ → Option ℕ
parent_or_null none = none
parent_or_null (some p) = if p == 0 then none else some p

abbrev pub mentions_or_null : List String → Option (List String)
mentions_or_null [] = none
mentions_or_null (m ∷ ms) = some (m ∷ ms)

unfoldable pub new_comment : NewComment → ℕ → ℕ → ℕ → ℕ → Comment
unfolding parse_mentions
new_comment b id task_id w now = record {
  id = id;
  task_id = task_id;
  workspace_id = w;
  author = get_or b.author "system";
  content = b.content;
  created_at = now;
  parent_id = parent_or_null b.parent_id;
  mentions = mentions_or_null (parse_mentions b.content);
}

unfoldable pub comment_activity : (String → String) → Comment → Task → List String → Activity
comment_activity shorten c t mentions = record {
  kind = "comment_added";
  entity_id = c.id;
  actor = c.author;
  description =
      concat
        (if is_some c.parent_id then "Replied to comment on task: " else "Added comment to task: ")
        t.title;
  details = commented c.task_id t.title c.parent_id mentions (shorten c.content);
  created_at = c.created_at;
  workspace_id = c.workspace_id;
}

-- The calls after the insertion.
unfoldable pub announce : (String → String) → Comment → Task → List String → TaskDb → TaskDb
unfolding log_activity comment_activity subscribe_all subscribers_of unseen recipients notify_all
announce shorten c t mentions db =
    let people = unseen [] mentions in
    let db' =
      subscribe_all c.task_id c.workspace_id (subscribers_of c.author people t)
        (log_activity (comment_activity shorten c t mentions) db) in
    notify_all shorten c t people (recipients c.task_id c.workspace_id c.author db') db'

unfoldable pub post_comment :
    (String → String) → ℕ → NewComment → ℕ → ℕ → CommentDb → CommentAnswer × CommentDb
unfolding new_comment announce parse_mentions
post_comment shorten task_id b w now db = elim (find_task task_id w db.base.tasks) [
  | none ↦ (error "Task not found" 404, db)
  | some t ↦
      let c = new_comment b db.next_comment task_id w now in
      if has_parent task_id w b.parent_id db.comments
      then (
        comment c,
        record {
          base = announce shorten c t (parse_mentions b.content) db.base;
          comments = db.comments ++ c ∷ [];
          next_comment = db.next_comment + 1;
        },
      )
      else (error "Parent comment not found" 404, db)
]
