-- ===== src/Tasks/Mentions.antt =====
-- The words that a comment mentions, and lists that are used as sets.
use mathlib.Core.Path.{subst}
use Prim.Native.Char.{code}
use omni_mission_control.Prelude.{
  ◌≡◌, inl, inr, refl, true, false, not, ◌||◌, Option, none, some, List, [], ◌∷◌, filter, String,
  str_eq, eq_iff, ◌==◌, is_empty, concat, Bool-cases, All, All-imp, arith,
}
use omni_mission_control.Tasks.Comments.{is_word, flush, scan, member, unseen}

-- No element stands twice.
abbrev pub AreDistinct : List String → Type 0
AreDistinct [] = Unit
AreDistinct (x ∷ xs) = (member x xs ≡ false) × AreDistinct xs

-- Every text of a list is a word.
abbrev pub AreWords : List String → Type 0
AreWords = All λ m. is_empty m ≡ false

flush-AreWords : (w : String) (rest : List String) → AreWords rest → AreWords (flush w rest)
flush-AreWords String.[] rest h = h
flush-AreWords (String.◌∷◌ c s) rest h = (refl, h)

pub scan-AreWords : (w : Option String) (s : String) → AreWords (scan w s)
unfolding scan
scan-AreWords none String.[] = tt
scan-AreWords (some w) String.[] = flush-AreWords w [] tt
scan-AreWords none (String.◌∷◌ c s) = elim (Bool-cases (code c == 64)) [
  | inl e ↦ rw e (scan-AreWords (some "") s)
  | inr e ↦ rw e (scan-AreWords none s)
]
scan-AreWords (some w) (String.◌∷◌ c s) = elim (Bool-cases (is_word (code c))) [
  | inl e ↦ rw e (scan-AreWords (some (concat w (String.◌∷◌ c ""))) s)
  | inr e ↦ rw e (
      flush-AreWords w _ (elim (Bool-cases (code c == 64)) [
        | inl f ↦ rw f (scan-AreWords (some "") s)
        | inr f ↦ rw f (scan-AreWords none s)
      ]))
]

member-cons : (m x : String) (xs : List String) → member m (x ∷ xs) ≡ false → member m xs ≡ false
member-cons m x xs h = ground arith

unseen-new : (seen xs : List String) → All (λ x. member x seen ≡ false) (unseen seen xs)
unfolding unseen
unseen-new seen [] = tt
unseen-new seen (x ∷ xs) = elim (Bool-cases (member x seen)) [
  | inl e ↦ rw e (unseen-new seen xs)
  | inr e ↦ rw e (
    e,
    All-imp (λ y. member y (x ∷ seen) ≡ false) (λ y. member y seen ≡ false) (unseen (x ∷ seen) xs)
        (λ y. member-cons y x seen) (unseen-new (x ∷ seen) xs),
  )
]

member-other :
    (x : String) (seen ys : List String)
    → All (λ y. member y (x ∷ seen) ≡ false) ys
    → member x ys ≡ false
member-other x seen [] h = refl
member-other x seen (y ∷ ys) (h, hs) =
    ground (arith, member-other x seen ys hs, eq_iff x y, eq_iff y x)

pub unseen-AreDistinct : (seen xs : List String) → AreDistinct (unseen seen xs)
unfolding unseen
unseen-AreDistinct seen [] = tt
unseen-AreDistinct seen (x ∷ xs) = elim (Bool-cases (member x seen)) [
  | inl e ↦ rw e (unseen-AreDistinct seen xs)
  | inr e ↦ rw e (
    member-other x seen (unseen (x ∷ seen) xs) (unseen-new (x ∷ seen) xs),
    unseen-AreDistinct (x ∷ seen) xs,
  )
]

pub member-unseen :
    (m : String) (seen xs : List String)
    → member m xs ≡ true
    → member m seen || member m (unseen seen xs) ≡ true
unfolding unseen
member-unseen m seen [] h = cc
member-unseen m seen (x ∷ xs) h = elim (Bool-cases (str_eq x m)) [
  | inl same ↦ elim (Bool-cases (member x seen)) [
    | inl e ↦
        let here : member m seen ≡ true =
          subst (λ y. member y seen ≡ true) ((eq_iff x m).0 same) e in
        rw here refl
    | inr e ↦ ground (arith, same, e)
  ]
  | inr other ↦ elim (Bool-cases (member x seen)) [
    | inl e ↦ rw e (member-unseen m seen xs (ground (arith, h, other)))
    | inr e ↦ ground (arith, e, other, member-unseen m (x ∷ seen) xs (ground (arith, h, other)))
  ]
]

pub member-filter :
    (m author : String) (xs : List String)
    → str_eq m author ≡ false
    → member m xs ≡ true
    → member m (filter (λ s. not (str_eq s author)) xs) ≡ true
member-filter m author [] e h = cc
member-filter m author (x ∷ xs) e h = elim (Bool-cases (str_eq x author)) [
  | inl a ↦ rw a (
      member-filter m author xs e
        (ground (arith, h, e, a, eq_iff x author, eq_iff x m, eq_iff m author)))
  | inr a ↦ ground (arith, a, h, member-filter m author xs e)
]
