-- ===== src/RateLimit/Client.antt =====
-- Which address `extractClientIp` takes out of a proxy chain.
use mathlib.Core.List.{reverse-append, reverse-reverse, append_assoc, reverse-cons}
use omni_mission_control.Prelude.{
  ◌≡◌, refl, sym, ap, ◌∙◌, true, false, ◌⊎◌, inl, inr, none, some, List, [], ◌∷◌, ◌++◌, String, map,
  reverse, arith, All, All-append, Bool-cases, Option-cases, find?, not, trim, split, truthy,
}
use omni_mission_control.RateLimit.{
  Headers, has, rightmost_untrusted, any_trusted, extract_client_ip, or_real_ip,
}

-- Every address of a list is a trusted proxy.
abbrev pub AllTrusted : List String → List String → Type 0
AllTrusted trusted = All (λ ip. has trusted ip ≡ true)

-- `ip` stands in the chain, is no trusted proxy, and only trusted proxies stand behind it.
abbrev pub IsRightmostUntrusted : List String → List String → String → Type 0
IsRightmostUntrusted trusted ips ip =
    (before : List String) × (behind : List String) × (ips ≡ before ++ ip ∷ behind)
    × (has trusted ip ≡ false)
    × AllTrusted trusted behind

reverse-middle {ℓ} :
    {A : Type ℓ} (xs ys : List A) (x : A) → reverse (xs ++ x ∷ ys) ≡ reverse ys ++ x ∷ reverse xs
reverse-middle xs ys x = simp (reverse-append, reverse-cons, append_assoc)

module _ (trusted : List String) where
  AllTrusted-reverse :
      (ips : List String) → AllTrusted trusted ips → AllTrusted trusted (reverse ips)
  AllTrusted-reverse [] h = tt
  AllTrusted-reverse (ip ∷ ips) (h, hs) = rw reverse-cons (
      All-append (λ i. has trusted i ≡ true) (reverse ips) (ip ∷ []) (AllTrusted-reverse ips hs)
        (h, tt))

  find-none :
      (ips : List String) → find? (λ ip. not (has trusted ip)) ips ≡ none → AllTrusted trusted ips
  find-none [] h = tt
  find-none (ip ∷ ips) h = (ground arith, find-none ips (ground arith))

  find-some :
      (ips : List String) (ip : String)
      → find? (λ i. not (has trusted i)) ips ≡ some ip
      → (before : List String) × (behind : List String) × (ips ≡ before ++ ip ∷ behind)
        × (has trusted ip ≡ false)
        × AllTrusted trusted before
  find-some [] ip h = cc
  find-some (i ∷ ips) ip h = elim (Bool-cases (has trusted i)) [
    | inl t ↦
        let (a, b, e, u, ts) = find-some ips ip (ground arith) in
        (i ∷ a, b, ap (λ l. i ∷ l) e, u, (t, ts))
    | inr f ↦ ([], ips, ground arith, ground arith, tt)
  ]

  rightmost_untrusted-none :
      (ips : List String) → rightmost_untrusted trusted ips ≡ none → AllTrusted trusted ips
  unfolding rightmost_untrusted
  rightmost_untrusted-none ips h =
      rw (reverse-reverse ips) at (AllTrusted-reverse (reverse ips) (find-none (reverse ips) h))

  rightmost_untrusted-some :
      (ips : List String) (ip : String)
      → rightmost_untrusted trusted ips ≡ some ip
      → IsRightmostUntrusted trusted ips ip
  unfolding rightmost_untrusted
  rightmost_untrusted-some ips ip h =
      let (a, b, e, u, ts) = find-some (reverse ips) ip h in
      (
        reverse b,
        reverse a,
        sym (reverse-reverse ips) ∙ ap reverse e ∙ reverse-middle a b ip,
        u,
        AllTrusted-reverse a ts,
      )

-- Behind trusted proxies and with an x-forwarded-for header, the address is the entry of the header
-- that is no trusted proxy and has only trusted proxies to its right, if there is one; if all
-- entries are trusted proxies, it is that of x-real-ip, trimmed, or "unknown".
pub extract_client_ip_lem :
    (trusted : List String) (h : Headers) (xff : String)
    → truthy h.x_forwarded_for ≡ some xff
    → any_trusted trusted ≡ true
    → let ips = map trim (split b',' xff) in
      IsRightmostUntrusted trusted ips (extract_client_ip trusted h)
      ⊎ (AllTrusted trusted ips × (extract_client_ip trusted h ≡ or_real_ip none h))
unfolding extract_client_ip
extract_client_ip_lem trusted h xff present behind =
    let ips = map trim (split b',' xff) in
    elim (Option-cases (rightmost_untrusted trusted ips)) [
      | inl e ↦
          rw (present, extract_client_ip)
            (rw behind (rw e (inr (rightmost_untrusted-none trusted ips e, refl))))
      | inr (ip, e) ↦
          rw (present, extract_client_ip)
            (rw behind (rw e (inl (rightmost_untrusted-some trusted ips ip e))))
    ]
