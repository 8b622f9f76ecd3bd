-- ===== src/RateLimit/Cleanup.antt =====
-- The periodic cleanup cannot be observed.
use omni_mission_control.Prelude.{
  ℕ, ◌≤◌, ◌≡◌, refl, ◌∙◌, false, Option, none, some, List, [], ◌∷◌, String, arith, ltb, str_eq,
  eq_iff, Bool-cases, Option-cases, inl, inr,
}
use omni_mission_control.RateLimit.{
  RateLimitEntry, RateLimiterOptions, Store, Response, get, put, cleanup, check_ip, live,
}
use omni_mission_control.RateLimit.Verdict.{
  Event, request, sweep, time, get-put, get-check_ip, bumped,
}

-- A `Map` holds a key once.
abbrev pub HasUniqueKeys : Store → Type 0
HasUniqueKeys [] = Unit
HasUniqueKeys ((k, e) ∷ s) = (get k s ≡ none) × HasUniqueKeys s

-- The verdicts on a run of requests.
unfoldable pub verdicts : RateLimiterOptions → List Event → Store → List (Option Response)
verdicts o [] s = []
verdicts o (request ip now ∷ evs) s =
    (check_ip o ip now s).1 ∷ verdicts o evs (check_ip o ip now s).0
verdicts o (sweep now ∷ evs) s = verdicts o evs (cleanup now s)

-- The run with its cleanups left out.
unfoldable pub without_sweeps : List Event → List Event
without_sweeps [] = []
without_sweeps (request ip now ∷ evs) = request ip now ∷ without_sweeps evs
without_sweeps (sweep now ∷ evs) = without_sweeps evs

-- The clock does not run backwards.
abbrev pub IsOrdered : ℕ → List Event → Type 0
IsOrdered t [] = Unit
IsOrdered t (ev ∷ evs) = (t ≤ time ev) × IsOrdered (time ev) evs

-- Two stores that no request from time t on can tell apart.
abbrev Agree : ℕ → Store → Store → Type 0
Agree t r s = (ip : String) (now : ℕ) → t ≤ now → live now (get ip r) ≡ live now (get ip s)

get-cleanup-none :
    (now : ℕ) (ip : String) (s : Store) → get ip s ≡ none → get ip (cleanup now s) ≡ none
unfolding get cleanup
get-cleanup-none now ip [] h = refl
get-cleanup-none now ip ((k, e) ∷ s) h = ground (arith, get-cleanup-none now ip s)

live-get-cleanup :
    (t now : ℕ) (ip : String) (s : Store)
    → HasUniqueKeys s
    → t ≤ now
    → live now (get ip (cleanup t s)) ≡ live now (get ip s)
unfolding get cleanup
live-get-cleanup t now ip [] u l = refl
live-get-cleanup t now ip ((k, e) ∷ s) (fresh, u) l =
    ground (arith, eq_iff k ip, live-get-cleanup t now ip s u l, get-cleanup-none t ip s)

get-put_other :
    (k ip : String) (e : RateLimitEntry) (s : Store)
    → str_eq ip k ≡ false
    → get k s ≡ none
    → get k (put ip e s) ≡ none
get-put_other k ip e s o h = ground (arith, get-put ip k e s)

put-HasUniqueKeys :
    (ip : String) (e : RateLimitEntry) (s : Store) → HasUniqueKeys s → HasUniqueKeys (put ip e s)
unfolding put
put-HasUniqueKeys ip e [] u = (unfold get in refl, tt)
put-HasUniqueKeys ip e ((k, d) ∷ s) (fresh, u) = elim (Bool-cases (str_eq k ip)) [
  | inl same ↦ rw same (fresh, u)
  | inr other ↦ rw other (
    get-put_other k ip e s (ground (arith, eq_iff k ip, eq_iff ip k)) fresh,
    put-HasUniqueKeys ip e s u,
  )
]

cleanup-HasUniqueKeys : (now : ℕ) (s : Store) → HasUniqueKeys s → HasUniqueKeys (cleanup now s)
unfolding cleanup
cleanup-HasUniqueKeys now [] u = tt
cleanup-HasUniqueKeys now ((k, e) ∷ s) (fresh, u) = elim (Bool-cases (ltb e.reset_at now)) [
  | inl old ↦ rw old (cleanup-HasUniqueKeys now s u)
  | inr young ↦ rw young (get-cleanup-none now k s fresh, cleanup-HasUniqueKeys now s u)
]

check_ip-HasUniqueKeys :
    (o : RateLimiterOptions) (ip : String) (now : ℕ) (s : Store)
    → HasUniqueKeys s
    → HasUniqueKeys (check_ip o ip now s).0
unfolding check_ip
check_ip-HasUniqueKeys o ip now s u = elim (Option-cases (live now (get ip s))) [
  | inl e ↦ rw (e, check_ip) (put-HasUniqueKeys ip (bumped o now none) s u)
  | inr (d, e) ↦ rw (e, check_ip) (put-HasUniqueKeys ip (bumped o now (some d)) s u)
]

check_ip-verdict :
    (o : RateLimiterOptions) (ip : String) (now : ℕ) (r s : Store)
    → live now (get ip r) ≡ live now (get ip s)
    → (check_ip o ip now r).1 ≡ (check_ip o ip now s).1
unfolding check_ip
check_ip-verdict o ip now r s h = ground arith

check_ip-Agree :
    (o : RateLimiterOptions) (ip : String) (t now : ℕ) (r s : Store)
    → t ≤ now
    → Agree t r s
    → Agree now (check_ip o ip now r).0 (check_ip o ip now s).0
check_ip-Agree o ip t now r s l a j later m =
    ground (arith, get-check_ip o ip j now r, get-check_ip o ip j now s, a ip now l, a j later)

sweep-Agree :
    (t now : ℕ) (r s : Store)
    → t ≤ now
    → HasUniqueKeys r
    → Agree t r s
    → Agree now (cleanup now r) s
sweep-Agree t now r s l u a j later m = live-get-cleanup now later j r u m ∙ a j later (omega arith)

verdicts-Agree :
    (o : RateLimiterOptions) (t : ℕ) (evs : List Event) (r s : Store)
    → IsOrdered t evs
    → HasUniqueKeys r
    → Agree t r s
    → verdicts o evs r ≡ verdicts o (without_sweeps evs) s
unfolding verdicts without_sweeps
verdicts-Agree o t [] r s ord u a = refl
verdicts-Agree o t (request ip now ∷ evs) r s (l, ord) u a = cc (
  check_ip-verdict o ip now r s (a ip now l),
  verdicts-Agree o now evs (check_ip o ip now r).0 (check_ip o ip now s).0 ord
      (check_ip-HasUniqueKeys o ip now r u) (check_ip-Agree o ip t now r s l a),
)
verdicts-Agree o t (sweep now ∷ evs) r s (l, ord) u a =
    verdicts-Agree o now evs (cleanup now r) s ord (cleanup-HasUniqueKeys now r u)
      (sweep-Agree t now r s l u a)

-- For a store that holds each address once, and a clock that does not run backwards, the verdicts
-- on a run of requests are the same with and without the cleanups that run between them.
pub verdicts-without_sweeps :
    (o : RateLimiterOptions) (t : ℕ) (evs : List Event) (s : Store)
    → IsOrdered t evs
    → HasUniqueKeys s
    → verdicts o evs s ≡ verdicts o (without_sweeps evs) s
verdicts-without_sweeps o t evs s ord u = verdicts-Agree o t evs s s ord u (λ ip now l. refl)
