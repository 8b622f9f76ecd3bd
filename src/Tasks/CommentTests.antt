-- ===== src/Tasks/CommentTests.antt =====
-- A comment on a concrete task, and the theorem on whom it notifies.
use omni_mission_control.Prelude.{
  ◌≡◌, ◌⊎◌, refl, true, none, some, List, [], ◌∷◌, ◌++◌, map, String, All,
}
use omni_mission_control.Tasks.{TaskStatus, Priority, Task}
use omni_mission_control.Tasks.Comments.{
  CommentDb, NewComment, error, parse_mentions, member, post_comment,
}
use omni_mission_control.Tasks.Mentions.{AreDistinct}
use omni_mission_control.Tasks.Notified.{post_comment-notifies}
use omni_mission_control.Tasks.Told.{Tells, addressees}
use omni_mission_control.Tasks.{Notification}
use omni_mission_control.Prelude.{◌≢◌, ℕ}

abbrev docs : Task
docs = record {
  id = 7;
  workspace_id = 2;
  title = "Docs";
  description = none;
  status = TaskStatus.in_progress;
  priority = Priority.high;
  assigned_to = some "bee";
  created_by = "ada";
  created_at = 10;
  updated_at = 10;
  due_date = none;
  estimated_hours = none;
  actual_hours = none;
  tags = [];
  metadata = "{}";
}

abbrev db : CommentDb
db = record {
  base = record {
    tasks = docs ∷ [];
    next_task = 8;
    reviews = [];
    next_review = 1;
    subscriptions = (7, "ada") ∷ (7, "cy") ∷ [];
    activities = [];
    notifications = [];
    events = [];
  };
  comments = [];
  next_comment = 1;
}

abbrev hello : NewComment
hello = record { content = "@dan and @cy_: see a@b"; author = some "ada"; parent_id = none }

-- An address counts as a mention, too.
mentions_found : parse_mentions hello.content ≡ "dan" ∷ "cy_" ∷ "b" ∷ []
unfolding parse_mentions
mentions_found = refl

-- The subscribers before, those mentioned and the assignee; the author is left out.
notified_names :
    map (λ n. n.recipient) (post_comment (λ s. s) 7 hello 2 50 db).1.base.notifications
    ≡ "cy" ∷ "dan" ∷ "cy_" ∷ "b" ∷ "bee" ∷ []
unfolding post_comment
notified_names = refl

kinds :
    map (λ n. n.kind) (post_comment (λ s. s) 7 hello 2 50 db).1.base.notifications
    ≡ "comment" ∷ "mention" ∷ "mention" ∷ "mention" ∷ "comment" ∷ []
unfolding post_comment
kinds = refl

elsewhere : post_comment (λ s. s) 7 hello 3 50 db ≡ (error "Task not found" 404, db)
unfolding post_comment
elsewhere = refl

orphan :
    post_comment (λ s. s) 7 (record hello { parent_id = some 4 }) 2 50 db
    ≡ (error "Parent comment not found" 404, db)
unfolding post_comment
orphan = refl

post_comment-notifies_example :
    (added : List Notification) × ((post_comment (λ s. s) 7 hello 2 50 db).1.base.notifications
      ≡ [] ++ added)
    × AreDistinct (addressees added)
    × All (Tells 1 2 50 "ada" (parse_mentions hello.content)) added
    × All (λ m. (m ≡ "ada") ⊎ (member m (addressees added) ≡ true)) (parse_mentions hello.content)
    × All
        (λ (s : ℕ × String). (s.0 ≢ 7) ⊎ (s.1 ≡ "ada") ⊎ (member s.1 (addressees added) ≡ true))
        ((7, "ada") ∷ (7, "cy") ∷ [])
post_comment-notifies_example = post_comment-notifies (λ s. s) 7 hello 2 50 db docs refl refl
