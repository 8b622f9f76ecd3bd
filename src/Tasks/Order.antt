-- ===== src/Tasks/Order.antt =====
-- An order of the reviews that the interface `Newest` allows: of two of the same second the one that
-- was inserted first.
use omni_mission_control.Prelude.{
  ◌≤◌, ◌≡◌, refl, sym, inl, inr, Option, none, some, List, [], ◌∷◌, leb, if◌then◌else◌, arith, All,
  Any, All-imp, Bool-cases, Option-cases,
}
use mathlib.Core.Path.{subst}
use omni_mission_control.Tasks.{Review, Newest}

abbrev pub newer : Review → Option Review → Review
newer r none = r
newer r (some x) = if leb x.created_at r.created_at then r else x

abbrev pub first_newest : List Review → Option Review
first_newest [] = none
first_newest (r ∷ rs) = some (newer r (first_newest rs))

abbrev pub IsNewest : List Review → Review → Type 0
IsNewest rs r = Any (λ x. x ≡ r) rs × All (λ x. x.created_at ≤ r.created_at) rs

pub first_newest-none : (rs : List Review) → first_newest rs ≡ none → rs ≡ []
first_newest-none [] e = refl
first_newest-none (r ∷ rs) e = absurd (cc)

IsNewest-newer :
    (r x : Review) (rs : List Review) → IsNewest rs x → IsNewest (r ∷ rs) (newer r (some x))
IsNewest-newer r x rs (there, newest) = elim (Bool-cases (leb x.created_at r.created_at)) [
  | inl e ↦
      let l : x.created_at ≤ r.created_at = ground arith in
      let same : r ≡ newer r (some x) = rw e refl in
      subst (IsNewest (r ∷ rs)) same (
        inl refl,
        (
          omega arith,
          All-imp (λ y. y.created_at ≤ x.created_at) (λ y. y.created_at ≤ r.created_at) rs
              (λ y k. omega arith) newest,
        ),
      )
  | inr e ↦
      let l : r.created_at ≤ x.created_at = ground arith in
      let same : x ≡ newer r (some x) = rw e refl in
      subst (IsNewest (r ∷ rs)) same (inr there, (l, newest))
]

some_same : (x y : Review) → some x ≡ some y → x ≡ y
some_same x y e = cc

pub first_newest-IsNewest :
    (rs : List Review) (r : Review) → first_newest rs ≡ some r → IsNewest rs r
first_newest-IsNewest [] r e = cc
first_newest-IsNewest (x ∷ rs) r e = elim (Option-cases (first_newest rs)) [
  | inl n ↦
      let empty : rs ≡ [] = first_newest-none rs n in
      let same : x ≡ r = some_same x r (rw n at e) in
      subst (IsNewest (x ∷ rs)) same
        (inl refl, (omega arith, subst (All (λ y. y.created_at ≤ x.created_at)) (sym empty) tt))
  | inr (y, n) ↦
      let same : newer x (some y) ≡ r = some_same (newer x (some y)) r (rw n at e) in
      subst (IsNewest (x ∷ rs)) same (IsNewest-newer x y rs (first_newest-IsNewest rs y n))
]

abbrev pub insertion_order : Newest
insertion_order = record {
  newest = first_newest;
  newest_some = first_newest-IsNewest;
  newest_none = first_newest-none;
}
