-- ===== src/Tasks/Told.antt =====
-- What the notifications of a comment say, in src/app/api/tasks/[id]/comments/route.ts.
use omni_mission_control.Prelude.{
  ℕ, ◌≡◌, ◌⊎◌, inl, inr, refl, ap, true, false, List, [], ◌∷◌, map, String, str_eq, Bool-cases, All,
  arith,
}
use omni_mission_control.Tasks.{Task, Notification}
use omni_mission_control.Tasks.Comments.{Comment, member, unseen, comment_notification}
use omni_mission_control.Prelude.{sym, ◌∙◌}
use omni_mission_control.Tasks.Mentions.{member-unseen}

-- A notification of the comment `id`, which is a mention exactly for those whom the text mentions.
abbrev pub Tells : ℕ → ℕ → ℕ → String → List String → Notification → Type 0
Tells id w now author mentions n =
    (n.source_id ≡ id)
    × (n.workspace_id ≡ w)
    × (n.created_at ≡ now)
    × (str_eq n.recipient author ≡ false)
    × ((n.kind ≡ "mention") × (member n.recipient mentions ≡ true)
        ⊎ (n.kind ≡ "comment") × (member n.recipient mentions ≡ false))

abbrev pub addressees : List Notification → List String
addressees = map (λ n. n.recipient)

module _ (m : String) where
  unseen_from : (seen xs : List String) → member m (unseen seen xs) ≡ true → member m xs ≡ true
  unfolding unseen
  unseen_from seen [] h = h
  unseen_from seen (x ∷ xs) h = elim (Bool-cases (member x seen)) [
    | inl e ↦ ground (arith, unseen_from seen xs (rw e at h))
    | inr e ↦
        let h' : member m (x ∷ unseen (x ∷ seen) xs) ≡ true = rw e at h in
        ground (arith, unseen_from (x ∷ seen) xs, h', Bool-cases (str_eq x m))
  ]

pub member-unseen_iff : (xs : List String) (m : String) → member m (unseen [] xs) ≡ member m xs
member-unseen_iff xs m = elim (Bool-cases (member m xs)) [
  | inl e ↦ member-unseen m [] xs e ∙ sym e
  | inr e ↦ ground (arith, e, unseen_from m [] xs, Bool-cases (member m (unseen [] xs)))
]

module _ (shorten : String → String) (c : Comment) (t : Task) (people : List String) where
  -- The notification for each name.
  abbrev pub notes : List String → List Notification
  notes = map (λ s. comment_notification shorten c t s (member s people))

  pub addressees-notes : (names : List String) → addressees (notes names) ≡ names
  unfolding comment_notification
  addressees-notes [] = refl
  addressees-notes (s ∷ ss) = ap (λ r. s ∷ r) (addressees-notes ss)

  pub notes-Tells :
      (mentions names : List String)
      → ((s : String) → member s people ≡ member s mentions)
      → member c.author names ≡ false
      → All (Tells c.id c.workspace_id c.created_at c.author mentions) (notes names)
  unfolding comment_notification
  notes-Tells mentions [] same h = tt
  notes-Tells mentions (s ∷ ss) same h = (
    (
      refl,
      refl,
      refl,
      ground (arith, h),
      elim (Bool-cases (member s people)) [
        | inl e ↦ inl (rw e refl, sym (same s) ∙ e)
        | inr e ↦ inr (rw e refl, sym (same s) ∙ e)
      ],
    ),
    notes-Tells mentions ss same (ground (arith, h)),
  )
