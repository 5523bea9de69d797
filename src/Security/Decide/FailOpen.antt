-- ===== src/Security/Decide/FailOpen.antt =====
-- When a client->server frame is withheld, and what its events say.
use mcpglass.Event.{SecurityEvent, blocked}
use mcpglass.Message.{c2s, parse_line, message_of, normalize_id, rpc_id_of}
use mcpglass.Base.{
  [], ◌∷◌, All, map, List, ◌≡◌, ◌≢◌, ◌↔◌, ◌⊎◌, refl, sym, subst, true, Option, none, some,
  Option-cases, inl, inr,
}
use mcpglass.Base.Int.{ℤ}
use mcpglass.Base.Text.{Text, Bytes, codes}
use mcpglass.Json.{Serde, Value, null, bool, number, string, array, object, get, ◌>>=◌}
use mcpglass.Message.Parse.{Reads, Reads-unique}
use mcpglass.Policy.Libs.{Libs}
use mcpglass.Policy.Config.{Policy, enforce}
use mcpglass.Policy.Evaluate.{Action, forward, block, PolicyEvent, is_tools_call, evaluate_request}
use mcpglass.Policy.Evaluate.Verdict.{Refused, Leaks, evaluate_request-block}
use mcpglass.Security.Decide.{
  Decision, security_event, action_taken_of, forward_frame, Encode, answer, frame_action,
  decide_value, decide_c2s_frame,
}

-- The policy asks for this request to be blocked.
abbrev pub Blocks : Libs → Policy → Value → Type 0
Blocks libs policy v =
    (is_tools_call v ≡ true) × (policy.mode ≡ enforce) × (Refused policy v ⊎ Leaks libs policy v)

answer-ne-forward :
    (enc : Encode) (id : Option Value) (rule : Text) → answer enc id rule ≢ forward_frame
unfolding answer
answer-ne-forward enc none rule = λ h. cc
answer-ne-forward enc (some null) rule = λ h. cc
answer-ne-forward enc (some _) rule = λ h. cc

action_taken-block : (a : Action) → (action_taken_of a ≡ blocked) ↔ (a ≡ block)
unfolding action_taken_of
action_taken-block forward = (λ h. cc, λ h. cc)
action_taken-block block = (λ _. refl, λ _. refl)

frame_action-block :
    (enc : Encode) (a : Action) (id : Option Value) (es : List PolicyEvent)
    → (frame_action enc a id es ≢ forward_frame) ↔ (a ≡ block)
unfolding frame_action
frame_action-block enc forward id es = (λ h. absurd (h refl), λ h. cc)
frame_action-block enc block id es = (λ _. refl, λ _. answer-ne-forward enc id _)

-- The two copies of the normalisation agree.
rpc_id_of-normalize_id : (serde : Serde) (v : Value) → normalize_id serde v ≡ rpc_id_of serde v
unfolding normalize_id rpc_id_of
rpc_id_of-normalize_id serde null = refl
rpc_id_of-normalize_id serde (bool b) = refl
rpc_id_of-normalize_id serde (number n) = refl
rpc_id_of-normalize_id serde (string s) = refl
rpc_id_of-normalize_id serde (array xs) = refl
rpc_id_of-normalize_id serde (object fs) = refl

same_ids : (serde : Serde) (o : Option Value) → (o >>= normalize_id serde) ≡ (o >>= rpc_id_of serde)
same_ids serde none = refl
same_ids serde (some v) = rpc_id_of-normalize_id serde v

module _ (serde : Serde) (enc : Encode) (libs : Libs) (frame : Bytes) (policy : Policy)
    (ts_ms : ℤ) where
  -- A frame is withheld from the server exactly when it is JSON and the policy asks for that
  -- request to be blocked: it is a `tools/call`, the mode is `enforce`, and the lists refuse the
  -- tool or its arguments leak a secret. Every other frame is forwarded, what is no JSON included.
  pub decide-withholds :
      ((decide_c2s_frame serde enc libs frame policy ts_ms).action ≢ forward_frame)
      ↔ ((v : Value) × Reads serde frame v × Blocks libs policy v)
  unfolding decide_c2s_frame decide_value
  decide-withholds = elim (Option-cases (serde.from_slice frame)) [
    | inl e ↦ (λ h. absurd (h (rw (e, decide_c2s_frame))), λ h. absurd (no_value e h.1))
    | inr (v, e) ↦
        let acts =
          frame_action-block enc (evaluate_request libs v policy).action (get (codes "id") v)
            (evaluate_request libs v policy).events in
        (
          λ h. (
            v,
            e,
            (evaluate_request-block libs v policy).0 (acts.0 (rw (e, decide_c2s_frame) at h)),
          ),
          λ h.
              rw (e, decide_c2s_frame)
                (acts.1 (
                  (evaluate_request-block libs v policy).1
                    (subst (Blocks libs policy) (Reads-unique serde frame h.0 v h.1 e) h.2))),
        )
  ]
    where
      no_value : {v : Value} → serde.from_slice frame ≡ none → serde.from_slice frame ≡ some v → ⊥
      no_value p q = cc (p, q)

  -- The id and the action that an event of the frame carries.
  abbrev pub Matches : SecurityEvent → Type 0
  Matches e =
      (e.ts_ms ≡ ts_ms)
      × (e.rpc_id ≡ (parse_line serde frame c2s).rpc_id)
      × ((e.action_taken ≡ blocked)
          ↔ ((decide_c2s_frame serde enc libs frame policy ts_ms).action ≢ forward_frame))

  decide_action :
      (v : Value)
      → Reads serde frame v
      → (decide_c2s_frame serde enc libs frame policy ts_ms).action
        ≡ frame_action enc
            (evaluate_request libs v policy).action
            (get (codes "id") v)
            (evaluate_request libs v policy).events
  unfolding decide_c2s_frame decide_value
  decide_action v r = rw (r, decide_c2s_frame)

  event-Matches :
      (v : Value) (e : PolicyEvent)
      → Reads serde frame v
      → Matches (
          security_event ts_ms
            (get (codes "id") v >>= normalize_id serde)
            (action_taken_of (evaluate_request libs v policy).action)
            e)
  unfolding parse_line message_of
  event-Matches v e r =
      let a = (evaluate_request libs v policy).action in
      let withheld =
        frame_action-block enc a (get (codes "id") v) (evaluate_request libs v policy).events in
      let taken = action_taken-block a in
      (
        refl,
        rw (r, parse_line) (same_ids serde (get (codes "id") v)),
        (
          λ h. rw (decide_action v r) (withheld.1 (taken.0 h)),
          λ h. taken.1 (withheld.0 (rw (decide_action v r) at h)),
        ),
      )

  events-Matches :
      (v : Value) (es : List PolicyEvent)
      → Reads serde frame v
      → All Matches (
          map
            (security_event ts_ms
              (get (codes "id") v >>= normalize_id serde)
              (action_taken_of (evaluate_request libs v policy).action))
            es)
  events-Matches v [] r = tt
  events-Matches v (e ∷ es) r = (event-Matches v e r, events-Matches v es r)

  -- Every security event of a frame has the time of the frame and the id under which the frame
  -- itself is recorded, and it says `blocked` exactly when the frame was withheld.
  pub decide-events : All Matches (decide_c2s_frame serde enc libs frame policy ts_ms).events
  unfolding decide_c2s_frame decide_value
  decide-events = elim (Option-cases (serde.from_slice frame)) [
    | inl e ↦ subst (λ o. All Matches (decided o).events) (sym e) tt
    | inr (v, e) ↦
        subst (λ o. All Matches (decided o).events) (sym e)
          (events-Matches v (evaluate_request libs v policy).events e)
  ]
    where
      decided : Option Value → Decision
      decided o = elim o [
        | none ↦ record { action = forward_frame; events = [] }
        | some value ↦ decide_value serde enc libs value policy ts_ms
      ]
