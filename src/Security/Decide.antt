-- ===== src/Security/Decide.antt =====
-- `decide_c2s_frame`, and the error responses that stand in for a withheld frame.
pub mod FailOpen
use mcpglass.Base.{List, [], ◌∷◌, ◌++◌, Bool, Option, none, some, map}
use mcpglass.Base.Int.{ℤ}
use mcpglass.Base.Text.{Text, Bytes, codes}
use mcpglass.Json.{Serde, Value, null, number, string, object, end, field, get, ◌>>=◌}
use mcpglass.Message.{normalize_id}
use mcpglass.Event
use mcpglass.Event.{SecurityEvent, SecurityEventKind, ActionTaken, flagged, blocked}
use mcpglass.Policy.Libs.{Libs}
use mcpglass.Policy.Config.{Policy}
use mcpglass.Policy.Evaluate.{
  Action, forward, block, EventKind, policy_deny, secret_leak, fingerprint_change, PolicyEvent,
  RequestEvaluation, evaluate_request,
}

pub data FrameAction : Type 0 where
  forward_frame : FrameAction
  block_with_response : Bytes → FrameAction
  block_silent : FrameAction

pub record Decision : Type 0 where
  pub action : FrameAction
  pub events : List SecurityEvent

-- What this file takes from `serde_json` beside `Serde`: `to_vec`, the UTF-8 bytes of the text,
-- and the decimal text of an `i64`.
pub record Encode : Type 0 where
  pub to_vec : Value → Bytes
  pub int_text : ℤ → Text

-- The body that both kinds of error response share.
unfoldable pub error_body : Encode → Value → Text → Text → Bytes
error_body enc id code message = enc.to_vec (
    object (
      field (codes "jsonrpc") (string (codes "2.0")) (
        field (codes "id") id (
          field (codes "error")
            (object
              (field (codes "code") (number code) (field (codes "message") (string message) end)))
            end))))

unfoldable pub synthesize_error_body : Encode → Value → Text → Bytes
synthesize_error_body enc id rule =
    error_body enc id (codes "-32001") (codes "blocked by mcpglass policy: " ++ rule)

unfoldable pub synthesize_error : Encode → Value → Text → Bytes
synthesize_error enc id rule = synthesize_error_body enc id rule ++ b'\n' ∷ []

unfoldable pub synthesize_error_custom : Encode → Value → ℤ → Text → Bytes
synthesize_error_custom enc id code message = error_body enc id (enc.int_text code) message

unfoldable pub map_kind : EventKind → SecurityEventKind
map_kind policy_deny = Event.policy_deny
map_kind secret_leak = Event.secret_leak
map_kind fingerprint_change = Event.fingerprint_change

unfoldable pub action_taken_of : Action → ActionTaken
action_taken_of block = blocked
action_taken_of forward = flagged

abbrev pub security_event : ℤ → Option Text → ActionTaken → PolicyEvent → SecurityEvent
security_event ts_ms rpc_id taken e = record {
  ts_ms = ts_ms;
  kind = map_kind e.kind;
  rule = e.rule;
  detail = e.detail;
  tool_name = e.tool_name;
  rpc_id = rpc_id;
  action_taken = taken;
}

-- `evaluation.events.first().map(|e| e.rule.as_str()).unwrap_or("policy")`.
unfoldable pub cited_rule : List PolicyEvent → Text
cited_rule [] = codes "policy"
cited_rule (e ∷ es) = e.rule

-- `id_value.filter(|v| !v.is_null())`: no response to a request without an id.
unfoldable pub answer : Encode → Option Value → Text → FrameAction
answer enc none rule = block_silent
answer enc (some null) rule = block_silent
answer enc (some id) rule = block_with_response (synthesize_error enc id rule)

unfoldable pub frame_action : Encode → Action → Option Value → List PolicyEvent → FrameAction
frame_action enc forward id events = forward_frame
frame_action enc block id events = answer enc id (cited_rule events)

-- The decision on a frame that is JSON.
unfoldable pub decide_value : Serde → Encode → Libs → Value → Policy → ℤ → Decision
decide_value serde enc libs value policy ts_ms =
    let evaluation = evaluate_request libs value policy in
    let id = get (codes "id") value in
    let rpc_id = id >>= normalize_id serde in
    record {
      action = frame_action enc evaluation.action id evaluation.events;
      events =
          map (security_event ts_ms rpc_id (action_taken_of evaluation.action)) evaluation.events;
    }

unfoldable pub decide_c2s_frame : Serde → Encode → Libs → Bytes → Policy → ℤ → Decision
decide_c2s_frame serde enc libs frame policy ts_ms = elim (serde.from_slice frame) [
  | none ↦ record { action = forward_frame; events = [] }
  | some value ↦ decide_value serde enc libs value policy ts_ms
]
