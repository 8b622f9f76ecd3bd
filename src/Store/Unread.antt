-- ===== src/Store/Unread.antt =====
-- The counter of unread notifications.
use omni_mission_control.Prelude.{
  ℕ, suc, ◌≤◌, ◌≡◌, ◌≢◌, refl, sym, ap, inl, inr, true, some, List, [], ◌∷◌, map, find?, count,
  ◌==◌, if◌then◌else◌, arith, ==_iff, All, Bool-cases,
}
use mathlib.Core.Path.{subst}
use omni_mission_control.Store.{Notification, Store, is_unread, read_one, mark_notification_read}

-- The counter is the number of notifications that are not read.
abbrev pub IsExact : Store → Type 0
IsExact s = s.unread_notification_count ≡ count is_unread s.notifications

abbrev pub HasUniqueIds : List Notification → Type 0
HasUniqueIds [] = Unit
HasUniqueIds (n ∷ ns) = All (λ x. x.id ≢ n.id) ns × HasUniqueIds ns

-- Where no notification has the id, none changes.
count-absent :
    (id now : ℕ) (ns : List Notification)
    → All (λ x. x.id ≢ id) ns
    → count is_unread (map (read_one id now) ns) ≡ count is_unread ns
count-absent id now [] a = refl
count-absent id now (n ∷ ns) (d, a) = ground (arith, count-absent id now ns a)

count-read_one :
    (id now : ℕ) (ns : List Notification) (n : Notification)
    → HasUniqueIds ns
    → find? (λ x. x.id == id) ns ≡ some n
    → is_unread n ≡ true
    → suc (count is_unread (map (read_one id now) ns)) ≡ count is_unread ns
count-read_one id now [] n u f h = cc
count-read_one id now (x ∷ ns) n (d, u) f h = elim (Bool-cases (x.id == id)) [
  | inl e ↦
      let same : x ≡ n = ground arith in
      let unread : is_unread x ≡ true = subst (λ z. is_unread z ≡ true) (sym same) h in
      let at_id : x.id ≡ id = (==_iff x.id id).0 e in
      rw (e, unread) (ap suc (count-absent id now ns (subst (λ i. All (λ y. y.id ≢ i) ns) at_id d)))
  | inr e ↦
      let ih = count-read_one id now ns n u (rw e at f) h in
      rw e (elim (Bool-cases (is_unread x)) [ inl r ↦ rw r (ap suc ih) | inr r ↦ rw r ih ])
]

-- Where no two notifications share an id, marking one that is unread as read keeps the counter exact.
pub mark_notification_read-IsExact :
    (s : Store) (id now : ℕ) (n : Notification)
    → IsExact s
    → HasUniqueIds s.notifications
    → find? (λ x. x.id == id) s.notifications ≡ some n
    → is_unread n ≡ true
    → IsExact (mark_notification_read id now s)
unfolding mark_notification_read
mark_notification_read-IsExact s id now n e u f h =
    omega (arith, count-read_one id now s.notifications n u f h)

count_read_twice :
    (id now later : ℕ) (ns : List Notification)
    → count is_unread (map (read_one id later) (map (read_one id now) ns))
      ≡ count is_unread (map (read_one id now) ns)
count_read_twice id now later [] = refl
count_read_twice id now later (n ∷ ns) = elim (Bool-cases (n.id == id)) [
  | inl e ↦ rw (e, e) (count_read_twice id now later ns)
  | inr e ↦
      rw (e, e) (ap (λ c. if is_unread n then suc c else c) (count_read_twice id now later ns))
]

-- Where the counter is right, no two notifications share an id and at least two are unread: marking one
-- of them as read keeps the counter right, and marking it a second time takes one more from it, so that
-- it is not the number of unread notifications any more.
pub mark_notification_read-twice :
    (s : Store) (id now later : ℕ) (n : Notification)
    → IsExact s
    → HasUniqueIds s.notifications
    → find? (λ x. x.id == id) s.notifications ≡ some n
    → is_unread n ≡ true
    → 2 ≤ count is_unread s.notifications
    → IsExact (mark_notification_read id now s)
      × ¬ IsExact (mark_notification_read id later (mark_notification_read id now s))
unfolding mark_notification_read
mark_notification_read-twice s id now later n e u f h l = (
  mark_notification_read-IsExact s id now n e u f h,
  λ exact. omega (
    arith,
    count-read_one id now s.notifications n u f h,
    count_read_twice id now later s.notifications,
  ),
)
