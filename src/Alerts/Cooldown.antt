-- ===== src/Alerts/Cooldown.antt =====
-- That an alert rule which has triggered keeps still for its cooldown.
use omni_mission_control.Prelude.{
  ℕ, ◌+◌, ◌*◌, ◌<◌, ◌≡◌, ◌≢◌, refl, sym, ap, ◌∙◌, true, false, some, List, [], ◌∷◌, filter, ◌==◌,
  ==_iff, Bool-cases, inl, inr, All, All-filter, arith,
}
use omni_mission_control.Alerts.{AlertRule, AlertDb, Values}
use omni_mission_control.Alerts.Evaluate.{
  in_cooldown, track_trigger, trigger, rule_fires, evaluate_all, is_active, evaluate_rules,
}

-- Each rule with the id is the given one.
abbrev pub Holds : ℕ → AlertRule → List AlertRule → Type 0
Holds id r rules = All (λ x. x.id ≡ id → x ≡ r) rules

-- The evaluations at some times, one after the other.
abbrev pub evaluate_at : Values → ℕ → List ℕ → AlertDb → AlertDb
evaluate_at values w [] db = db
evaluate_at values w (now ∷ times) db =
    evaluate_at values w times (evaluate_rules values now w db).1

track_trigger-Holds :
    (now id other : ℕ) (r : AlertRule) (rules : List AlertRule)
    → other ≢ id
    → Holds id r rules
    → Holds id r (track_trigger now other rules)
unfolding track_trigger
track_trigger-Holds now id other r [] ne h = tt
track_trigger-Holds now id other r (x ∷ rules) ne (h, hs) =
    let rest = track_trigger-Holds now id other r rules ne hs in
    elim (Bool-cases (x.id == other)) [
      | inl e ↦ rw e ((λ same. absurd (ne (sym ((==_iff x.id other).0 e) ∙ same))), rest)
      | inr e ↦ rw e (h, rest)
    ]

pub false-ne-true : false ≢ true
false-ne-true e = cc

module _ (values : Values) (now w id : ℕ) (r : AlertRule) (still : in_cooldown now r ≡ true) where
  rule_fires-cooling : (db : AlertDb) → rule_fires values now w db r ≡ false
  unfolding rule_fires
  rule_fires-cooling db = rw still refl

  -- A rule that fires is not the one that cools down.
  rule_fires-other :
      (db : AlertDb) (x : AlertRule)
      → (x.id ≡ id → x ≡ r)
      → rule_fires values now w db x ≡ true
      → x.id ≢ id
  rule_fires-other db x k f same =
      false-ne-true
        (sym (rule_fires-cooling db) ∙ sym (ap (rule_fires values now w db) (k same)) ∙ f)

  evaluate_all-Holds :
      (rs : List AlertRule) (db : AlertDb)
      → Holds id r rs
      → Holds id r db.rules
      → Holds id r (evaluate_all values now w rs db).1.rules
  unfolding evaluate_all trigger
  evaluate_all-Holds [] db k h = h
  evaluate_all-Holds (x ∷ rs) db (k, ks) h = elim (Bool-cases (rule_fires values now w db x)) [
    | inl f ↦ rw f (
        evaluate_all-Holds rs (trigger now w x db) ks
          (track_trigger-Holds now id x.id r db.rules (rule_fires-other db x k f) h))
    | inr f ↦ rw f (evaluate_all-Holds rs db ks h)
  ]

-- A rule that has triggered at a time above 0, and whose id is its own, is as it was after all
-- evaluations that come before its cooldown is over: it does not trigger again.
pub evaluate_at-Holds :
    (values : Values) (w id last : ℕ) (r : AlertRule) (times : List ℕ) (db : AlertDb)
    → r.last_triggered_at ≡ some last
    → 0 < last
    → All (λ now. now < last + r.cooldown_minutes * 60) times
    → Holds id r db.rules
    → Holds id r (evaluate_at values w times db).rules
unfolding evaluate_rules
evaluate_at-Holds values w id last r [] db e p a h = h
evaluate_at-Holds values w id last r (now ∷ times) db e p (n, a) h =
    let still : in_cooldown now r ≡ true = ground (arith, e) in
    evaluate_at-Holds values w id last r times (evaluate_rules values now w db).1 e p a (
      evaluate_all-Holds values now w id r still (filter (is_active w) db.rules) db
        (All-filter (λ x. x.id ≡ id → x ≡ r) (is_active w) db.rules h) h)
