-- ===== src/Prelude/Lists.antt =====
-- Lists measured and indexed by native numbers, under the library's names; predicates and counts.
use Prim.Native.Nat.{ℕ, zero, suc}
use mathlib.Core.Path.{◌≡◌, refl, sym, ap, ◌∙◌, subst}
use mathlib.Core.Logic.{◌⊎◌, ◌≢◌, inl, inr}
use mathlib.Core.Bool.{Bool, true, false, ◌||◌}
use mathlib.Core.List.{List, [], ◌∷◌, ◌++◌, map}
use mathlib.Core.Option.{Option, none, some}
use omni_mission_control.Prelude.Tests.{if◌then◌else◌, Bool-cases}

module _ {ℓ} {A : Type ℓ} where
  abbrev pub length : List A → ℕ
  length [] = 0
  length (x ∷ xs) = suc (length xs)

  abbrev pub get_elem? : List A → ℕ → Option A
  get_elem? [] i = none
  get_elem? (x ∷ xs) zero = some x
  get_elem? (x ∷ xs) (suc i) = get_elem? xs i

  abbrev pub take : ℕ → List A → List A
  take zero xs = []
  take (suc n) [] = []
  take (suc n) (x ∷ xs) = x ∷ take n xs

  abbrev pub drop : ℕ → List A → List A
  drop zero xs = xs
  drop (suc n) [] = []
  drop (suc n) (x ∷ xs) = drop n xs

  -- `Array.prototype.filter`
  abbrev pub filter : (A → Bool) → List A → List A
  filter p [] = []
  filter p (x ∷ xs) = let rest = filter p xs in if p x then x ∷ rest else rest

  -- `Array.prototype.find`
  abbrev pub find? : (A → Bool) → List A → Option A
  find? p [] = none
  find? p (x ∷ xs) = let rest = find? p xs in if p x then some x else rest

  -- `Array.prototype.some`
  abbrev pub any : (A → Bool) → List A → Bool
  any p [] = false
  any p (x ∷ xs) = p x || any p xs

  -- How many elements pass a test.
  abbrev pub count : (A → Bool) → List A → ℕ
  count p [] = 0
  count p (x ∷ xs) = let rest = count p xs in if p x then suc rest else rest

module _ {ℓ κ} {A : Type ℓ} where
  abbrev pub All : (A → Type κ) → List A → Type κ
  All P [] = Unit
  All P (x ∷ xs) = P x × All P xs

  pub All-append : (P : A → Type κ) (xs ys : List A) → All P xs → All P ys → All P (xs ++ ys)
  All-append P [] ys h k = k
  All-append P (x ∷ xs) ys h k = (h.0, All-append P xs ys h.1 k)

module _ {ℓ κ} {A : Type ℓ} {B : Type κ} where
  pub length-map : (xs : List A) (f : A → B) → length (map f xs) ≡ length xs
  length-map [] f = refl
  length-map (x ∷ xs) f = ap suc (length-map xs f)

module _ {ℓ} {A : Type ℓ} where
  -- Some element has the property.
  abbrev pub Any : (A → Type 0) → List A → Type 0
  Any P [] = ⊥
  Any P (x ∷ xs) = P x ⊎ Any P xs

  -- The element that has the one property has the other too.
  pub Any-All : (P Q : A → Type 0) (xs : List A) → Any P xs → All Q xs → Any (λ x. P x × Q x) xs
  Any-All P Q [] h a = elim h [ ]
  Any-All P Q (x ∷ xs) (inl h) (q, a) = inl (h, q)
  Any-All P Q (x ∷ xs) (inr h) (q, a) = inr (Any-All P Q xs h a)

  pub Any-imp : (P Q : A → Type 0) (xs : List A) → ((x : A) → P x → Q x) → Any P xs → Any Q xs
  Any-imp P Q [] f h = elim h [ ]
  Any-imp P Q (x ∷ xs) f (inl h) = inl (f x h)
  Any-imp P Q (x ∷ xs) f (inr h) = inr (Any-imp P Q xs f h)

  pub Any-append : (P : A → Type 0) (xs ys : List A) → Any P xs → Any P (xs ++ ys)
  Any-append P [] ys h = elim h [ ]
  Any-append P (x ∷ xs) ys (inl h) = inl h
  Any-append P (x ∷ xs) ys (inr h) = inr (Any-append P xs ys h)

  pub Any-append_last : (P : A → Type 0) (xs : List A) (y : A) → P y → Any P (xs ++ y ∷ [])
  Any-append_last P [] y h = inl h
  Any-append_last P (x ∷ xs) y h = inr (Any-append_last P xs y h)

  -- What a filter keeps stood in the list and passed the test.
  pub Any-filter :
      (P : A → Type 0) (p : A → Bool) (xs : List A)
      → Any P (filter p xs)
      → Any (λ x. P x × (p x ≡ true)) xs
  Any-filter P p [] h = elim h [ ]
  Any-filter P p (x ∷ xs) h = elim (Bool-cases (p x)) [
    | inl e ↦ elim (rw e at h) [ inl k ↦ inl (k, e) | inr k ↦ inr (Any-filter P p xs k) ]
    | inr e ↦ inr (Any-filter P p xs (rw e at h))
  ]

  pub Any-keep :
      (P : A → Type 0) (p : A → Bool) (xs : List A)
      → ((x : A) → P x → p x ≡ true)
      → Any P xs
      → Any P (filter p xs)
  Any-keep P p [] f h = elim h [ ]
  Any-keep P p (x ∷ xs) f (inl h) = rw (f x h) (inl h)
  Any-keep P p (x ∷ xs) f (inr h) = elim (Bool-cases (p x)) [
    | inl e ↦ rw e (inr (Any-keep P p xs f h))
    | inr e ↦ rw e (Any-keep P p xs f h)
  ]

false-true : false ≢ true
false-true e = cc

pub some_inj {ℓ} : {A : Type ℓ} (x y : A) → some x ≡ some y → x ≡ y
some_inj x y e = cc

module _ {ℓ} {A : Type ℓ} where
  pub All-unfilter :
      (P : A → Type 0) (p : A → Bool) (xs : List A)
      → All P (filter p xs)
      → All (λ x. p x ≡ true → P x) xs
  All-unfilter P p [] h = tt
  All-unfilter P p (x ∷ xs) h = elim (Bool-cases (p x)) [
    | inl e ↦ let k = rw e at h in (λ _. k.0, All-unfilter P p xs k.1)
    | inr e ↦ (λ e'. absurd (false-true (sym e ∙ e')), All-unfilter P p xs (rw e at h))
  ]

  pub All-filter : (P : A → Type 0) (p : A → Bool) (xs : List A) → All P xs → All P (filter p xs)
  All-filter P p [] h = tt
  All-filter P p (x ∷ xs) (h, a) = elim (Bool-cases (p x)) [
    | inl e ↦ rw e (h, All-filter P p xs a)
    | inr e ↦ rw e (All-filter P p xs a)
  ]

  pub All-tested :
      (P : A → Type 0) (p : A → Bool) (xs : List A)
      → All (λ x. p x ≡ true → P x) xs
      → All P (filter p xs)
  All-tested P p [] h = tt
  All-tested P p (x ∷ xs) (h, a) = elim (Bool-cases (p x)) [
    | inl e ↦ rw e (h e, All-tested P p xs a)
    | inr e ↦ rw e (All-tested P p xs a)
  ]

  pub All-take : (P : A → Type 0) (n : ℕ) (xs : List A) → All P xs → All P (take n xs)
  All-take P zero xs a = tt
  All-take P (suc n) [] a = tt
  All-take P (suc n) (x ∷ xs) (h, a) = (h, All-take P n xs a)

  pub All-imp : (P Q : A → Type 0) (xs : List A) → ((x : A) → P x → Q x) → All P xs → All Q xs
  All-imp P Q [] f h = tt
  All-imp P Q (x ∷ xs) f (h, a) = (f x h, All-imp P Q xs f a)

  pub All-both : (P Q : A → Type 0) (xs : List A) → All P xs → All Q xs → All (λ x. P x × Q x) xs
  All-both P Q [] h k = tt
  All-both P Q (x ∷ xs) (h, a) (k, b) = ((h, k), All-both P Q xs a b)

  pub find?-All :
      (P : A → Type 0) (p : A → Bool) (xs : List A) (x : A) → All P xs → find? p xs ≡ some x → P x
  find?-All P p [] x a h = cc
  find?-All P p (y ∷ xs) x (k, a) h = elim (Bool-cases (p y)) [
    | inl e ↦ let same : some y ≡ some x = rw e at h in subst P (some_inj y x same) k
    | inr e ↦ find?-All P p xs x a (rw e at h)
  ]

  pub find?-true : (p : A → Bool) (xs : List A) (x : A) → find? p xs ≡ some x → p x ≡ true
  find?-true p [] x h = cc
  find?-true p (y ∷ xs) x h = elim (Bool-cases (p y)) [
    | inl e ↦
        let same : some y ≡ some x = rw e at h in subst (λ z. p z ≡ true) (some_inj y x same) e
    | inr e ↦ find?-true p xs x (rw e at h)
  ]

  pub find?-ext : (p q : A → Bool) (xs : List A) → ((x : A) → p x ≡ q x) → find? p xs ≡ find? q xs
  find?-ext p q [] e = refl
  find?-ext p q (x ∷ xs) e = rw (e x) (ap (λ r. if q x then some x else r) (find?-ext p q xs e))

module _ {ℓ κ μ} {A : Type ℓ} {B : Type κ} {C : Type μ} where
  pub map-map : (f : B → C) (g : A → B) (xs : List A) → map f (map g xs) ≡ map (λ x. f (g x)) xs
  map-map f g [] = refl
  map-map f g (x ∷ xs) = ap (λ ys. f (g x) ∷ ys) (map-map f g xs)

module _ {ℓ κ} {A : Type ℓ} {B : Type κ} where
  -- Functions that agree on the elements of a list.
  pub map-ext : (f g : A → B) (xs : List A) → All (λ x. f x ≡ g x) xs → map f xs ≡ map g xs
  map-ext f g [] e = refl
  map-ext f g (x ∷ xs) (e, es) = rw (e, map-ext f g xs es) refl

module _ {ℓ κ} {A : Type ℓ} where
  pub All-always : (P : A → Type κ) (xs : List A) → ((x : A) → P x) → All P xs
  All-always P [] f = tt
  All-always P (x ∷ xs) f = (f x, All-always P xs f)

module _ {ℓ} {A : Type ℓ} where
  pub map_same : (xs : List A) → map (λ x. x) xs ≡ xs
  map_same [] = refl
  map_same (x ∷ xs) = ap (λ ys. x ∷ ys) (map_same xs)

module _ {ℓ κ μ} {A : Type ℓ} {B : Type κ} where
  pub All-map :
      (P : B → Type μ) (f : A → B) (xs : List A) → All (λ x. P (f x)) xs → All P (map f xs)
  All-map P f [] a = tt
  All-map P f (x ∷ xs) (h, a) = (h, All-map P f xs a)
