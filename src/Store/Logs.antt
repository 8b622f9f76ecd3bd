-- ===== src/Store/Logs.antt =====
-- The bound and the ids of the store's logs.
use omni_mission_control.Prelude.{
  ℕ, zero, suc, ◌≤◌, ◌≡◌, refl, sym, ap, ◌∙◌, inl, inr, false, ◌||◌, List, [], ◌∷◌, String, take,
  length, str_eq, eq_iff, arith, Bool-cases,
}
use mathlib.Core.Path.{subst}
use omni_mission_control.Store.{LogEntry, Store, has_log, replace_log, add_log}

-- No two entries share an id.
abbrev pub HasUniqueLogs : List LogEntry → Type 0
HasUniqueLogs [] = Unit
HasUniqueLogs (l ∷ ls) = (has_log l.id ls ≡ false) × HasUniqueLogs ls

length-take_bound : {A : Type 0} (n : ℕ) (xs : List A) → length (take n xs) ≤ n
length-take_bound zero xs = omega arith
length-take_bound (suc n) [] = omega arith
length-take_bound (suc n) (x ∷ xs) = omega (arith, length-take_bound n xs)

length-replace_log : (log : LogEntry) (ls : List LogEntry) → length (replace_log log ls) ≡ length ls
length-replace_log log [] = refl
length-replace_log log (l ∷ ls) = ground (arith, length-replace_log log ls)

has_log-replace_log :
    (id : String) (log : LogEntry) (ls : List LogEntry)
    → has_log id (replace_log log ls) ≡ has_log id ls
has_log-replace_log id log [] = refl
has_log-replace_log id log (l ∷ ls) = elim (Bool-cases (str_eq l.id log.id)) [
  | inl e ↦
      let same : l.id ≡ log.id = (eq_iff l.id log.id).0 e in
      rw e (ap (λ i. str_eq i id || has_log id ls) (sym same))
  | inr e ↦ rw e (ap (λ b. str_eq l.id id || b) (has_log-replace_log id log ls))
]

replace_log-HasUniqueLogs :
    (log : LogEntry) (ls : List LogEntry) → HasUniqueLogs ls → HasUniqueLogs (replace_log log ls)
replace_log-HasUniqueLogs log [] u = tt
replace_log-HasUniqueLogs log (l ∷ ls) (d, u) = elim (Bool-cases (str_eq l.id log.id)) [
  | inl e ↦
      let same : l.id ≡ log.id = (eq_iff l.id log.id).0 e in
      rw e (subst (λ i. has_log i ls ≡ false) same d, u)
  | inr e ↦ rw e (has_log-replace_log l.id log ls ∙ d, replace_log-HasUniqueLogs log ls u)
]

has_log-take :
    (id : String) (n : ℕ) (ls : List LogEntry)
    → has_log id ls ≡ false
    → has_log id (take n ls) ≡ false
has_log-take id zero ls h = refl
has_log-take id (suc n) [] h = refl
has_log-take id (suc n) (l ∷ ls) h = ground (arith, has_log-take id n ls)

take-HasUniqueLogs : (n : ℕ) (ls : List LogEntry) → HasUniqueLogs ls → HasUniqueLogs (take n ls)
take-HasUniqueLogs zero ls u = tt
take-HasUniqueLogs (suc n) [] u = tt
take-HasUniqueLogs (suc n) (l ∷ ls) (d, u) = (has_log-take l.id n ls d, take-HasUniqueLogs n ls u)

-- Adding a log keeps the ids of the logs unique and their number within 1000.
pub add_log-HasUniqueLogs :
    (log : LogEntry) (s : Store)
    → HasUniqueLogs s.logs
    → length s.logs ≤ 1000
    → HasUniqueLogs (add_log log s).logs × (length (add_log log s).logs ≤ 1000)
unfolding add_log
add_log-HasUniqueLogs log s u l = elim (Bool-cases (has_log log.id s.logs)) [
  | inl e ↦
      rw e (replace_log-HasUniqueLogs log s.logs u, omega (arith, length-replace_log log s.logs))
  | inr e ↦
      rw e (take-HasUniqueLogs 1000 (log ∷ s.logs) (e, u), length-take_bound 1000 (log ∷ s.logs))
]
