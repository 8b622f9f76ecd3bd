-- ===== src/Tasks/Notified.antt =====
-- Whom a comment notifies.
use mathlib.Core.Path.{subst}
use omni_mission_control.Prelude.{
  ℕ, ◌≡◌, ◌⊎◌, inl, inr, refl, ap, ◌∙◌, Bool, true, false, not, none, some, List, [], ◌∷◌, ◌++◌,
  map, filter, String, str_eq, eq_iff, is_some, is_empty, get_or, Bool-cases, All, All-imp,
  All-both, arith,
}
use omni_mission_control.Tasks.{Task, TaskDb, find_task, log_activity}
use omni_mission_control.Tasks.Comments.{
  Comment, CommentDb, NewComment, parse_mentions, member, unseen, get_task_subscribers,
  subscribe_all, subscribers_of, comment_notification, comment_activity, recipients, has_parent,
  new_comment, announce, post_comment,
}
use omni_mission_control.Tasks.Mentions.{
  AreDistinct, scan-AreWords, unseen-AreDistinct, member-unseen, member-filter,
}
use omni_mission_control.Tasks.Subscribed.{
  Keeps, notify_all-notifications, subscribe_all-Keeps, subscribe_all-member, member-names,
  any-append,
}
use omni_mission_control.Tasks.Told.{
  Tells, addressees, notes, addressees-notes, notes-Tells, member-unseen_iff,
}
use omni_mission_control.Tasks.Subscribed.{subscribe_all-IsSubscribed, IsSubscribed}
use omni_mission_control.Tasks.{Notification, subscribes}
use omni_mission_control.Prelude.{sym, ◌≢◌, any, ==_iff}

without_author :
    (author : String) (xs : List String)
    → member author (filter (λ s. not (str_eq s author)) xs) ≡ false
without_author author [] = refl
without_author author (x ∷ xs) = ground (arith, without_author author xs)

member_filtered :
    (m : String) (p : String → Bool) (xs : List String)
    → member m xs ≡ false
    → member m (filter p xs) ≡ false
member_filtered m p [] h = refl
member_filtered m p (x ∷ xs) h = ground (arith, member_filtered m p xs, h)

AreDistinct-filter :
    (p : String → Bool) (xs : List String) → AreDistinct xs → AreDistinct (filter p xs)
AreDistinct-filter p [] d = tt
AreDistinct-filter p (x ∷ xs) (n, d) = elim (Bool-cases (p x)) [
  | inl e ↦ rw e (member_filtered x p xs n, AreDistinct-filter p xs d)
  | inr e ↦ rw e (AreDistinct-filter p xs d)
]

-- A subscriber who is not the author is notified.
reached :
    (id w : ℕ) (author m : String) (db : TaskDb)
    → IsSubscribed id m db
    → is_some (find_task id w db.tasks) ≡ true
    → str_eq m author ≡ false
    → member m (recipients id w author db) ≡ true
unfolding recipients get_task_subscribers
reached id w author m db h f a =
    member-filter m author _ a (member-unseen m [] _ (rw f (member-names id m db.subscriptions h)))

stays_there :
    (id w : ℕ) (ns : List String) (db : TaskDb)
    → is_some (find_task id w db.tasks) ≡ true
    → is_some (find_task id w (subscribe_all id w ns db).tasks) ≡ true
unfolding Keeps
stays_there id w ns db f =
    ap (λ ts. is_some (find_task id w ts)) (subscribe_all-Keeps id w ns db).1 ∙ f

-- A person who is among those to be subscribed and is not the author is notified.
notified :
    (id w : ℕ) (author m : String) (ns : List String) (db : TaskDb)
    → member m ns ≡ true
    → is_empty m ≡ false
    → is_some (find_task id w db.tasks) ≡ true
    → str_eq m author ≡ false
    → member m (recipients id w author (subscribe_all id w ns db)) ≡ true
notified id w author m ns db h e f a =
    reached id w author m (subscribe_all id w ns db) (subscribe_all-member id w ns m db h e f)
      (stays_there id w ns db f) a

-- So is everyone who was subscribed before.
notified_still :
    (id w : ℕ) (author m : String) (ns : List String) (db : TaskDb)
    → IsSubscribed id m db
    → is_some (find_task id w db.tasks) ≡ true
    → str_eq m author ≡ false
    → member m (recipients id w author (subscribe_all id w ns db)) ≡ true
notified_still id w author m ns db h f a =
    reached id w author m (subscribe_all id w ns db) (subscribe_all-IsSubscribed id w ns m db h)
      (stays_there id w ns db f) a

among :
    (m author : String) (xs ys : List String)
    → member m xs ≡ true
    → member m (author ∷ (xs ++ ys)) ≡ true
among m author xs ys h =
    ground (arith, any-append (λ y. str_eq y m) xs ys, h, Bool-cases (str_eq author m))

members_self : (xs : List String) → All (λ m. member m xs ≡ true) xs
members_self [] = tt
members_self (x ∷ xs) = (
  ground (arith, eq_iff x x),
  All-imp (λ m. member m xs ≡ true) (λ m. member m (x ∷ xs) ≡ true) xs
      (λ m h. ground (arith, h, Bool-cases (str_eq x m))) (members_self xs),
)

module _ (shorten : String → String) (c : Comment) (t : Task) (mentions : List String)
    (db : TaskDb) where
  -- The people of the comment's set, and the tables when the notifications begin.
  people : List String
  people = unseen [] mentions

  joined : TaskDb
  joined =
      subscribe_all c.task_id c.workspace_id (subscribers_of c.author people t)
        (log_activity (comment_activity shorten c t mentions) db)

  names : List String
  names = recipients c.task_id c.workspace_id c.author joined

  announce-notifications :
      (announce shorten c t mentions db).notifications
      ≡ db.notifications ++ map (λ s. comment_notification shorten c t s (member s people)) names
  unfolding announce people joined names Keeps log_activity
  announce-notifications =
      notify_all-notifications shorten c t people names joined
      ∙ ap (λ ns. ns ++ map (λ s. comment_notification shorten c t s (member s people)) names)
          (subscribe_all-Keeps c.task_id c.workspace_id (subscribers_of c.author people t)
            (log_activity (comment_activity shorten c t mentions) db)).0

  mentioned :
      (m : String)
      → is_some (find_task c.task_id c.workspace_id db.tasks) ≡ true
      → member m mentions ≡ true
      → is_empty m ≡ false
      → (m ≡ c.author) ⊎ (member m names ≡ true)
  unfolding names joined people subscribers_of log_activity
  mentioned m f h e = elim (Bool-cases (str_eq m c.author)) [
    | inl same ↦ inl ((eq_iff m c.author).0 same)
    | inr other ↦ inr (
        notified c.task_id c.workspace_id c.author m (subscribers_of c.author people t)
          (log_activity (comment_activity shorten c t mentions) db)
          (among m c.author people (get_or t.assigned_to "" ∷ []) (member-unseen m [] mentions h)) e
          f other)
  ]

  subscriber :
      (m : String)
      → is_some (find_task c.task_id c.workspace_id db.tasks) ≡ true
      → IsSubscribed c.task_id m db
      → (m ≡ c.author) ⊎ (member m names ≡ true)
  unfolding names joined log_activity
  subscriber m f h = elim (Bool-cases (str_eq m c.author)) [
    | inl same ↦ inl ((eq_iff m c.author).0 same)
    | inr other ↦ inr (
        notified_still c.task_id c.workspace_id c.author m (subscribers_of c.author people t)
          (log_activity (comment_activity shorten c t mentions) db) h f other)
  ]

-- Every row of the subscriptions is of another task, or its person is subscribed.
subscribed_rows :
    (id : ℕ) (rows : List (ℕ × String))
    → All (λ s. (s.0 ≢ id) ⊎ (any (subscribes id s.1) rows ≡ true)) rows
subscribed_rows id [] = tt
subscribed_rows id (s ∷ ss) = (
  ground (arith, ==_iff s.0 id, eq_iff s.1 s.1),
  All-imp (λ x. (x.0 ≢ id) ⊎ (any (subscribes id x.1) ss ≡ true))
      (λ x. (x.0 ≢ id) ⊎ (any (subscribes id x.1) (s ∷ ss) ≡ true)) ss (λ x h. ground (arith, h))
      (subscribed_rows id ss),
)

names-AreDistinct :
    (shorten : String → String) (c : Comment) (t : Task) (mentions : List String) (db : TaskDb)
    → AreDistinct (names shorten c t mentions db)
      × (member c.author (names shorten c t mentions db) ≡ false)
unfolding names recipients
names-AreDistinct shorten c t mentions db =
    let subscribed =
      get_task_subscribers c.task_id c.workspace_id (joined shorten c t mentions db) in
    (
      AreDistinct-filter (λ s. not (str_eq s c.author)) (unseen [] subscribed)
          (unseen-AreDistinct [] subscribed),
      without_author c.author (unseen [] subscribed),
    )

posted-base :
    (shorten : String → String) (task_id : ℕ) (b : NewComment) (w now : ℕ) (db : CommentDb)
    (t : Task)
    → find_task task_id w db.base.tasks ≡ some t
    → has_parent task_id w b.parent_id db.comments ≡ true
    → (post_comment shorten task_id b w now db).1.base
      ≡ announce shorten
          (new_comment b db.next_comment task_id w now)
          t
          (parse_mentions b.content)
          db.base
unfolding post_comment
posted-base shorten task_id b w now db t found parent = rw (post_comment, found, parent) refl

-- On a task of the workspace, and where the parent, if any, is a comment on it: a comment adds
-- notifications of this comment, to different people and never to its author. One is of the kind
-- 'mention' if the text mentions its recipient, and of the kind 'comment' otherwise. Everyone whom the
-- text mentions and everyone who was subscribed to the task gets one, but for the author.
pub post_comment-notifies :
    (shorten : String → String) (task_id : ℕ) (b : NewComment) (w now : ℕ) (db : CommentDb)
    (t : Task)
    → find_task task_id w db.base.tasks ≡ some t
    → has_parent task_id w b.parent_id db.comments ≡ true
    → let author = get_or b.author "system" in
      (added : List Notification) × ((post_comment shorten task_id b w now db).1.base.notifications
        ≡ db.base.notifications ++ added)
      × AreDistinct (addressees added)
      × All (Tells db.next_comment w now author (parse_mentions b.content)) added
      × All (λ m. (m ≡ author) ⊎ (member m (addressees added) ≡ true)) (parse_mentions b.content)
      × All
          (λ s. (s.0 ≢ task_id) ⊎ (s.1 ≡ author) ⊎ (member s.1 (addressees added) ≡ true))
          db.base.subscriptions
unfolding new_comment people names joined recipients parse_mentions
post_comment-notifies shorten task_id b w now db t found parent =
    let c : Comment = new_comment b db.next_comment task_id w now in
    let mentions = parse_mentions b.content in
    let to = names shorten c t mentions db.base in
    let there : is_some (find_task task_id w db.base.tasks) ≡ true = rw found refl in
    let back : to ≡ addressees (notes shorten c t (unseen [] mentions) to) =
      sym (addressees-notes shorten c t (unseen [] mentions) to) in
    let (distinct, no_author) = names-AreDistinct shorten c t mentions db.base in
    (
      notes shorten c t (unseen [] mentions) to,
      ap (λ (d : TaskDb). d.notifications) (posted-base shorten task_id b w now db t found parent)
          ∙ announce-notifications shorten c t mentions db.base,
      subst AreDistinct back distinct,
      notes-Tells shorten c t (unseen [] mentions) mentions to (member-unseen_iff mentions)
          no_author,
      subst (λ xs. All (λ m. (m ≡ c.author) ⊎ (member m xs ≡ true)) mentions) back
          (All-imp (λ m. (member m mentions ≡ true) × (is_empty m ≡ false))
            (λ m. (m ≡ c.author) ⊎ (member m to ≡ true)) mentions
            (λ m h. mentioned shorten c t mentions db.base m there h.0 h.1)
            (All-both (λ m. member m mentions ≡ true) (λ m. is_empty m ≡ false) mentions
              (members_self mentions) (scan-AreWords none b.content))),
      subst
          (λ xs.
            All (λ s. (s.0 ≢ task_id) ⊎ (s.1 ≡ c.author) ⊎ (member s.1 xs ≡ true))
              db.base.subscriptions)
          back
          (All-imp
            (λ s. (s.0 ≢ task_id) ⊎ (any (subscribes task_id s.1) db.base.subscriptions ≡ true))
            (λ s. (s.0 ≢ task_id) ⊎ (s.1 ≡ c.author) ⊎ (member s.1 to ≡ true)) db.base.subscriptions
            (λ s h. elim h [
              | inl other ↦ inl other
              | inr held ↦ inr (subscriber shorten c t mentions db.base s.1 there held)
            ])
            (subscribed_rows task_id db.base.subscriptions)),
    )
