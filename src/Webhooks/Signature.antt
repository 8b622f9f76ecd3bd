-- ===== src/Webhooks/Signature.antt =====
-- The signature that a delivery carries, and the check that src/lib/webhooks.ts offers its receivers.
use Prim.Native.Char.{Char}
use Prim.Native.String.append
use mathlib.Core.Path.{subst}
use omni_mission_control.Prelude.{
  ◌≡◌, refl, sym, ap, ◌∙◌, true, Option, some, none, String, str_eq, eq_iff, concat, truthy,
}
use omni_mission_control.Webhooks.{World, Webhook, Body, headers, verify_webhook_signature}
use omni_mission_control.Webhooks.Dispatch.{lookup}

some_same : (s t : String) → some s ≡ some t → s ≡ t
some_same s t e = cc

truthy_kept : (o : Option String) (s : String) → truthy o ≡ some s → truthy (some s) ≡ some s
truthy_kept none s h = absurd (cc)
truthy_kept (some String.[]) s h = absurd (cc)
truthy_kept (some (String.◌∷◌ c r)) s h = rw (← some_same (String.◌∷◌ c r) s h) refl

truthy-concat :
    (c : Char) (s t : String)
    → truthy (some (concat (String.◌∷◌ c s) t)) ≡ some (concat (String.◌∷◌ c s) t)
truthy-concat c s t = subst (λ z. truthy (some z) ≡ some z) (sym (append.cons c s t)) refl

verify_lem :
    (env : World) (secret : Option String) (key signature : String) (body : Body)
    → truthy secret ≡ some key
    → truthy (some signature) ≡ some signature
    → verify_webhook_signature env secret body (some signature)
      ≡ str_eq signature (concat "sha256=" (env.sign key body))
unfolding verify_webhook_signature
verify_lem env secret key signature body k s =
    rw (s, verify_webhook_signature) (rw (k, verify_webhook_signature) refl)

lookup-headers :
    (env : World) (x : Webhook) (event secret : String) (body : Body)
    → truthy x.secret ≡ some secret
    → lookup "X-MC-Signature" (headers env x event body)
      ≡ some (concat "sha256=" (env.sign secret body))
lookup-headers env x event secret body h = rw h refl

-- A receiver with the webhook's secret accepts the signature header of each delivery.
pub verify_webhook_signature-headers :
    (env : World) (x : Webhook) (event secret : String) (body : Body)
    → truthy x.secret ≡ some secret
    → verify_webhook_signature env
        (some secret)
        body
        (lookup "X-MC-Signature" (headers env x event body))
      ≡ true
verify_webhook_signature-headers env x event secret body h =
    let s : String = concat "sha256=" (env.sign secret body) in
    ap (verify_webhook_signature env (some secret) body) (lookup-headers env x event secret body h)
    ∙ verify_lem env (some secret) secret s body (truthy_kept x.secret secret h)
        (truthy-concat "s" "ha256=" (env.sign secret body))
    ∙ (eq_iff s s).1 refl
