-- ===== src/Gate/Carried.antt =====
-- What a request to src/proxy.ts carries: a session's cookie, the API key.
use text.Mathlib.TextLemmas.{cons-ne-nil}
use mathlib.Core.Path.{subst}
use omni_mission_control.Prelude.{
  some_inj, ◌≡◌, ◌≢◌, ◌↔◌, inl, inr, refl, sym, ap, true, false, Option, none, some, String,
  is_some, is_empty, str_or, truthy, get_or, Option-cases, arith,
}
use omni_mission_control.Auth.Access.{safe_compare_iff}
use omni_mission_control.Gate.{GateEnv, GateRequest, has_api_key}

-- The request carries a value that is not empty.
abbrev pub Carries : Option String → String → Type 0
Carries field v = (field ≡ some v) × (v ≢ "")

-- The request's key is the configured one.
abbrev pub HasApiKey : GateEnv → GateRequest → Type 0
HasApiKey env r = (key : String) × Carries r.x_api_key key × Carries env.api_key key

abbrev pub HasSession : GateRequest → Type 0
HasSession r = (token : String) × Carries r.session token

pub true-ne-false : true ≢ false
true-ne-false e = cc

pub truthy_iff : (o : Option String) (v : String) → (truthy o ≡ some v) ↔ Carries o v
truthy_iff none v = (λ e. cc, λ c. let e = c.0 in cc)
truthy_iff (some String.[]) v = (λ e. cc, λ c. absurd (c.1 (sym (some_inj "" v c.0))))
truthy_iff (some (String.◌∷◌ c s)) v =
    (λ e. (e, subst (λ t. t ≢ "") (some_inj (String.◌∷◌ c s) v e) (cons-ne-nil c s)), λ k. k.0)

-- A default that is empty adds no value.
str_or-carries : (o : Option String) (v : String) → str_or o "" ≡ v → v ≢ "" → o ≡ some v
str_or-carries none v e ne = absurd (ne (sym e))
str_or-carries (some String.[]) v e ne = absurd (ne (sym e))
str_or-carries (some (String.◌∷◌ c s)) v e ne = ap some e

Carries-str_or : (o : Option String) (v : String) → Carries o v → str_or o "" ≡ v
Carries-str_or none v (e, ne) = cc
Carries-str_or (some String.[]) v (e, ne) = some_inj "" v e
Carries-str_or (some (String.◌∷◌ c s)) v (e, ne) = some_inj (String.◌∷◌ c s) v e

pub has_api_key_iff :
    (env : GateEnv) (r : GateRequest) → (has_api_key env r ≡ true) ↔ HasApiKey env r
unfolding has_api_key
has_api_key_iff env r = (forth, back)
  where
    forth : has_api_key env r ≡ true → HasApiKey env r
    forth h = elim (Option-cases (truthy r.x_api_key)) [
      | inl e ↦ absurd (ground (arith, e))
      | inr (key, e) ↦
          let carried = (truthy_iff r.x_api_key key).0 e in
          let same : str_or env.api_key "" ≡ key =
            sym ((safe_compare_iff key (str_or env.api_key "")).0 (rw (has_api_key, e) at h)) in
          (key, carried, (str_or-carries env.api_key key same carried.1, carried.1))
    ]

    back : HasApiKey env r → has_api_key env r ≡ true
    back (key, sent, configured) =
        rw (has_api_key, (truthy_iff r.x_api_key key).1 sent)
          ((safe_compare_iff key (str_or env.api_key "")).1
            (sym (Carries-str_or env.api_key key configured)))

pub get_or-carries : (o : Option String) (v : String) → get_or o "" ≡ v → v ≢ "" → o ≡ some v
get_or-carries none v e ne = absurd (ne (sym e))
get_or-carries (some w) v e ne = ap some e

pub is_empty_iff : (s : String) → (is_empty s ≡ false) ↔ (s ≢ "")
is_empty_iff String.[] = (λ e. cc, λ ne. absurd (ne refl))
is_empty_iff (String.◌∷◌ c s) = (λ e. cons-ne-nil c s, λ ne. refl)

pub session_sent_iff : (r : GateRequest) → (is_some (truthy r.session) ≡ true) ↔ HasSession r
session_sent_iff r = elim (Option-cases (truthy r.session)) [
  | inl e ↦ (λ h. absurd (ground (arith, e)), λ (t, c). rw ((truthy_iff r.session t).1 c) refl)
  | inr (t, e) ↦ (λ h. (t, (truthy_iff r.session t).0 e), λ _. rw e refl)
]
