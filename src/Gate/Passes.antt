-- ===== src/Gate/Passes.antt =====
-- Which requests src/proxy.ts lets through.
use text.Mathlib.TextLemmas.{cons-ne-nil}
use omni_mission_control.Prelude.{
  ◌≡◌, ◌≢◌, ◌↔◌, ◌⊎◌, inl, inr, refl, sym, ◌∙◌, ap, Bool, true, false, not, ◌&&◌, ◌||◌, some, List,
  [], ◌∷◌, any, String, str_eq, eq_iff, is_some, truthy, starts_with, get_or, if◌then◌else◌,
  Bool-cases, Option-cases, Any, arith,
}
use omni_mission_control.Gate.{
  GateEnv, GateRequest, GateAnswer, next, forbidden, unauthorized, redirect_to_login, proxy,
  is_allowed_host, is_mutating, origin_mismatch, is_open_path, has_api_key, host_matches, env_flag,
  get_request_hostname, allowed_patterns, request_host,
}
use omni_mission_control.Gate.Carried.{
  Carries, HasApiKey, HasSession, true-ne-false, truthy_iff, has_api_key_iff, get_or-carries,
  is_empty_iff, session_sent_iff,
}

-- Its host is allowed: by the flag, outside production, or by a pattern.
abbrev pub HasAllowedHost : GateEnv → GateRequest → Type 0
HasAllowedHost env r =
    (env_flag env.allow_any_host ≡ true)
    ⊎ (env.node_env ≢ some "production")
    ⊎ Any (λ p. host_matches p (get_request_hostname r) ≡ true) (allowed_patterns env)

-- It changes something and comes from a page whose host is known and is not the request's.
abbrev pub IsForged : GateEnv → GateRequest → Type 0
IsForged env r =
    (is_mutating r ≡ true)
    × ((origin : String) × (host : String) × Carries r.origin origin
        × Carries (env.url_host origin) host
        × (request_host r ≢ "")
        × (host ≢ request_host r))

origin_mismatch_iff :
    (env : GateEnv) (r : GateRequest)
    → (is_mutating r && origin_mismatch env r ≡ true) ↔ IsForged env r
unfolding origin_mismatch
origin_mismatch_iff env r = (forth, back)
  where
    forth : is_mutating r && origin_mismatch env r ≡ true → IsForged env r
    forth h = elim (Option-cases (truthy r.origin)) [
      | inl e ↦ absurd (ground (arith, e))
      | inr (origin, e) ↦
          let host = get_or (env.url_host origin) "" in
          let k = (is_empty_iff host).0 (ground arith) in
          (
            ground arith,
            (
              origin,
              host,
              (truthy_iff r.origin origin).0 e,
              (get_or-carries (env.url_host origin) host refl k, k),
              (is_empty_iff (request_host r)).0 (ground arith),
              ground (arith, eq_iff host (request_host r)),
            ),
          )
    ]

    back : IsForged env r → is_mutating r && origin_mismatch env r ≡ true
    back (m, (origin, host, sent, known, named, differs)) =
        rw (m, origin_mismatch, (truthy_iff r.origin origin).1 sent, known.0)
          (ground (
            arith,
            (is_empty_iff host).1 known.1,
            (is_empty_iff (request_host r)).1 named,
            eq_iff host (request_host r),
          ))

module _ {A : Type 0} (p : A → Bool) where
  any-Any : (xs : List A) → any p xs ≡ true → Any (λ x. p x ≡ true) xs
  any-Any [] h = cc
  any-Any (x ∷ xs) h = elim (Bool-cases (p x)) [
    | inl e ↦ inl e
    | inr e ↦ inr (any-Any xs (rw e at h))
  ]

  Any-any : (xs : List A) → Any (λ x. p x ≡ true) xs → any p xs ≡ true
  Any-any [] h = elim h [ ]
  Any-any (x ∷ xs) (inl e) = rw e refl
  Any-any (x ∷ xs) (inr h) = ground (arith, Any-any xs h)

is_allowed_host_iff :
    (env : GateEnv) (r : GateRequest) → (is_allowed_host env r ≡ true) ↔ HasAllowedHost env r
unfolding is_allowed_host
is_allowed_host_iff env r = (forth, back)
  where
    forth : is_allowed_host env r ≡ true → HasAllowedHost env r
    forth h = elim (Bool-cases (env_flag env.allow_any_host)) [
      | inl flag ↦ inl flag
      | inr strict ↦ elim (Bool-cases (str_eq (get_or env.node_env "") "production")) [
        | inl production ↦ inr (inr (any-Any _ (allowed_patterns env) (ground arith)))
        | inr other ↦
            inr (
              inl
                (λ e. true-ne-false (ap (λ o. str_eq (get_or o "") "production") (sym e) ∙ other)))
      ]
    ]

    back : HasAllowedHost env r → is_allowed_host env r ≡ true
    back (inl flag) = rw flag refl
    back (inr (inl other)) = ground (
      arith,
      eq_iff (get_or env.node_env "") "production",
      λ (e : get_or env.node_env "" ≡ "production").
          other (get_or-carries env.node_env "production" e (cons-ne-nil "p" "roduction")),
    )
    back (inr (inr h)) =
        ground
          (arith, Any-any (λ p. host_matches p (get_request_hostname r)) (allowed_patterns env) h)

-- The answer, by the code's tests.
decided : Bool → Bool → Bool → Bool → Bool → Bool → GateAnswer
decided allowed forged path api session key =
    if not allowed
    then forbidden "Forbidden"
    else if forged
    then forbidden "CSRF origin mismatch"
    else if path
    then next
    else if api
    then (if session || key then next else unauthorized)
    else if session
    then next
    else redirect_to_login

decided-next :
    (allowed forged path api session key : Bool)
    → (decided allowed forged path api session key ≡ next) ↔ (
        (allowed ≡ true)
        × (forged ≡ false)
        × ((path ≡ true) ⊎ (session ≡ true) ⊎ (api ≡ true) × (key ≡ true)))
unfolding decided
decided-next allowed forged path api session key = ground arith

proxy-decided :
    (env : GateEnv) (r : GateRequest)
    → proxy env r
      ≡ decided
          (is_allowed_host env r)
          (is_mutating r && origin_mismatch env r)
          (is_open_path r.pathname)
          (starts_with "/api/" r.pathname)
          (is_some (truthy r.session))
          (has_api_key env r)
unfolding proxy decided
proxy-decided env r = refl

-- The gate lets a request through exactly if its host is allowed, it is not a change that a page of
-- another host makes, and its path is open, it carries a session's cookie, or it asks for the API with
-- the configured key. (The cookie's token is judged by the handlers.)
pub proxy_iff :
    (env : GateEnv) (r : GateRequest)
    → (proxy env r ≡ next) ↔ (
        HasAllowedHost env r
        × ¬ IsForged env r
        × ((is_open_path r.pathname ≡ true)
            ⊎ HasSession r
            ⊎ (starts_with "/api/" r.pathname ≡ true) × HasApiKey env r))
proxy_iff env r = rw (proxy-decided env r) (
    ground (
      arith,
      decided-next (is_allowed_host env r) (is_mutating r && origin_mismatch env r)
          (is_open_path r.pathname) (starts_with "/api/" r.pathname) (is_some (truthy r.session))
          (has_api_key env r),
      is_allowed_host_iff env r,
      origin_mismatch_iff env r,
      session_sent_iff r,
      has_api_key_iff env r,
    ))
