-- ===== src/Policy/Evaluate/Verdict.antt =====
-- When a request is blocked.
use mcpglass.Base.{
  List, [], ◌∷◌, ◌++◌, ◌≡◌, ◌≢◌, ◌↔◌, ◌⊎◌, inl, inr, refl, true, Option, none, some, Option-cases,
  Bool-cases, map,
}
use mcpglass.Json.{Value}
use mcpglass.Policy.Libs.{Libs}
use mcpglass.Policy.Config.{Mode, monitor, enforce, Policy}
use mcpglass.Policy.Rules.{DenyReason, deny_reason}
use mcpglass.Policy.Rules.Correct.{Undenied, Allows, deny_reason-permits}
use mcpglass.Policy.Secrets.{scan_request_arguments}
use mcpglass.Policy.Evaluate.{
  block, PolicyEvent, is_tools_call, tool_name_of, deny_events, secret_events, secret_event,
  action_of, evaluate_request,
}

-- The lists refuse the tool that the request names.
abbrev pub Refused : Policy → Value → Type 0
Refused policy request =
    ¬ (Undenied policy.deny (tool_name_of request) × Allows policy.allow (tool_name_of request))

-- The scan is on, and finds something in the arguments.
abbrev pub Leaks : Libs → Policy → Value → Type 0
Leaks libs policy request =
    (policy.secret_scan ≡ true) × (scan_request_arguments libs request policy.custom_compiled ≢ [])

action_of-block :
    (m : Mode) (es : List PolicyEvent) → (action_of m es ≡ block) ↔ ((m ≡ enforce) × (es ≢ []))
unfolding action_of
action_of-block enforce [] = (λ h. cc, λ h. absurd (h.1 refl))
action_of-block enforce (e ∷ es) = (λ _. (refl, λ q. cc), λ _. refl)
action_of-block monitor es = (λ h. cc, λ h. cc)

deny_events-Refused :
    (libs : Libs) (policy : Policy) (request : Value)
    → (deny_events libs policy (tool_name_of request) ≡ []) ↔ (¬ Refused policy request)
unfolding deny_events
deny_events-Refused libs policy request =
    let permits = deny_reason-permits policy.deny policy.allow (tool_name_of request) in
    elim (Option-cases (deny_reason policy.deny policy.allow (tool_name_of request))) [
      | inl e ↦ (λ _ r. r (permits.0 e), λ _. rw (e, deny_events))
      | inr (reason, e) ↦ (
        λ h. absurd (cons_ne_nil (rw (e, deny_events) at h)),
        λ h. absurd (h (λ p. some_ne_none e (permits.1 p))),
      )
    ]
  where
    cons_ne_nil : {x : PolicyEvent} → x ∷ [] ≡ [] → ⊥
    cons_ne_nil h = cc

    some_ne_none : {o : Option DenyReason} {r : DenyReason} → o ≡ some r → o ≡ none → ⊥
    some_ne_none h k = cc (h, k)

map-nil {ℓ κ} : {A : Type ℓ} {B : Type κ} (f : A → B) (xs : List A) → (map f xs ≡ []) ↔ (xs ≡ [])
map-nil f [] = (λ _. refl, λ _. refl)
map-nil f (x ∷ xs) = (λ h. cc, λ h. cc)

secret_events-Leaks :
    (libs : Libs) (policy : Policy) (request : Value)
    → (secret_events libs policy request ≡ []) ↔ (¬ Leaks libs policy request)
unfolding secret_events
secret_events-Leaks libs policy request = elim (Bool-cases policy.secret_scan) [
  | inl e ↦
      let quiet =
        map-nil (secret_event (tool_name_of request))
          (scan_request_arguments libs request policy.custom_compiled) in
      (
        λ h l. l.1 (quiet.0 (rw (e, secret_events) at h)),
        λ n. rw (e, secret_events) (stable (λ some_hit. n (e, λ z. some_hit (quiet.1 z)))),
      )
  | inr e ↦ (λ _ l. cc (e, l.0), λ _. rw (e, secret_events))
]
  where
    stable : {xs : List PolicyEvent} → (¬ (xs ≢ [])) → xs ≡ []
    stable {xs = []} h = refl
    stable {xs = x ∷ xs} h = absurd (h (λ q. cc))

Leaks-of :
    (libs : Libs) (policy : Policy) (request : Value)
    → (secret_events libs policy request ≢ [])
    → Leaks libs policy request
unfolding secret_events
Leaks-of libs policy request h = elim (Bool-cases policy.secret_scan) [
  | inl e ↦ (
    e,
    λ z. h (
        rw (e, secret_events)
          ((map-nil _ (scan_request_arguments libs request policy.custom_compiled)).1 z)),
  )
  | inr e ↦ absurd (h (rw (e, secret_events)))
]

append_ne_nil : (xs ys : List PolicyEvent) → (xs ++ ys ≢ []) → (xs ≢ []) ⊎ (ys ≢ [])
append_ne_nil [] ys h = inr h
append_ne_nil (x ∷ xs) ys h = inl (λ q. cc)

ne_nil_append : (xs ys : List PolicyEvent) → (xs ≢ []) ⊎ (ys ≢ []) → xs ++ ys ≢ []
ne_nil_append [] ys (inl h) = absurd (h refl)
ne_nil_append [] ys (inr h) = h
ne_nil_append (x ∷ xs) ys h = λ q. cc

-- A request is blocked exactly when it is a `tools/call`, the mode is `enforce`, and the lists
-- refuse its tool or the secret scan is on and finds something in its arguments. So in the mode
-- `monitor`, and for any other method, every request is forwarded.
pub evaluate_request-block :
    (libs : Libs) (request : Value) (policy : Policy)
    → ((evaluate_request libs request policy).action ≡ block) ↔ (
        (is_tools_call request ≡ true)
        × (policy.mode ≡ enforce)
        × (Refused policy request ⊎ Leaks libs policy request))
unfolding evaluate_request
evaluate_request-block libs request policy = elim (Bool-cases (is_tools_call request)) [
  | inr e ↦ (λ h. cc (rw (e, evaluate_request) at h), λ h. cc (e, h.0))
  | inl e ↦
      let denied = deny_events libs policy (tool_name_of request) in
      let secret = secret_events libs policy request in
      let acts = action_of-block policy.mode (denied ++ secret) in
      (
        λ h.
            let both = acts.0 (rw (e, evaluate_request) at h) in
            (e, both.0, reasons (append_ne_nil denied secret both.1)),
        λ h. rw (e, evaluate_request) (acts.1 (h.1, ne_nil_append denied secret (events h.2))),
      )
]
  where
    reasons :
        (deny_events libs policy (tool_name_of request) ≢ [])
          ⊎ (secret_events libs policy request ≢ [])
        → Refused policy request ⊎ Leaks libs policy request
    reasons (inl h) = inl (λ p. h ((deny_events-Refused libs policy request).1 (λ r. r p)))
    reasons (inr h) = inr (Leaks-of libs policy request h)

    events :
        Refused policy request ⊎ Leaks libs policy request
        → (deny_events libs policy (tool_name_of request) ≢ [])
          ⊎ (secret_events libs policy request ≢ [])
    events (inl r) = inl (λ z. (deny_events-Refused libs policy request).0 z r)
    events (inr l) = inr (λ z. (secret_events-Leaks libs policy request).0 z l)
