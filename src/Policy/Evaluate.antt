-- ===== src/Policy/Evaluate.antt =====
-- `evaluate_request`: the decision on one client->server request.
pub mod Verdict
use mcpglass.Base.{List, [], ◌∷◌, ◌++◌, Bool, true, false, if◌then◌else◌, Option, none, some, map}
use mcpglass.Base.Text.{Text, codes, text_eq}
use mcpglass.Json.{Value, get, get_str, ◌>>=◌, unwrap_or}
use mcpglass.Policy.Libs.{Libs}
use mcpglass.Policy.Config.{Mode, monitor, enforce, Policy}
use mcpglass.Policy.Rules.{DenyReason, deny_list, not_allowed, deny_reason}
use mcpglass.Policy.Secrets.{SecretHit, scan_request_arguments}

pub data Action : Type 0 where
  forward block : Action

pub data EventKind : Type 0 where
  policy_deny secret_leak fingerprint_change : EventKind

pub record PolicyEvent : Type 0 where
  pub kind : EventKind
  pub rule : Text
  pub detail : Text
  pub tool_name : Option Text

pub record RequestEvaluation : Type 0 where
  pub action : Action
  pub events : List PolicyEvent

-- `method != Some("tools/call")`, negated.
unfoldable pub is_tools_call : Value → Bool
is_tools_call request = elim (get_str (codes "method") request) [
  | none ↦ false
  | some m ↦ text_eq m (codes "tools/call")
]

unfoldable pub tool_name_of : Value → Option Text
tool_name_of request = get (codes "params") request >>= get_str (codes "name")

-- The rule and the detail of a refusal.
unfoldable pub rule_of : DenyReason → Option Text → Text
rule_of (deny_list pat) tool = pat
rule_of not_allowed tool = unwrap_or tool (codes "<missing name>")

unfoldable pub detail_of : Libs → DenyReason → Option Text → Text
detail_of libs (deny_list pat) tool =
    codes "tool "
    ++ (libs.debug (unwrap_or tool []) ++ (codes " matches deny rule " ++ libs.debug pat))
detail_of libs not_allowed (some n) =
    codes "tool " ++ (libs.debug n ++ codes " is not in the allow-list")
detail_of libs not_allowed none = codes "tools/call has no tool name under an active allow-list"

-- The event of the lists, if they refuse the tool.
unfoldable pub deny_events : Libs → Policy → Option Text → List PolicyEvent
deny_events libs policy tool = elim (deny_reason policy.deny policy.allow tool) [
  | none ↦ []
  | some reason ↦
      record {
        kind = policy_deny;
        rule = rule_of reason tool;
        detail = detail_of libs reason tool;
        tool_name = tool;
      }
      ∷ []
]

abbrev pub secret_event : Option Text → SecretHit → PolicyEvent
secret_event tool hit = record {
  kind = secret_leak;
  rule = hit.pattern_name;
  detail = hit.matched_preview;
  tool_name = tool;
}

unfoldable pub secret_events : Libs → Policy → Value → List PolicyEvent
secret_events libs policy request =
    if policy.secret_scan
    then map (secret_event (tool_name_of request))
        (scan_request_arguments libs request policy.custom_compiled)
    else []

-- `policy.mode == Mode::Enforce && !events.is_empty()`.
unfoldable pub action_of : Mode → List PolicyEvent → Action
action_of enforce (_ ∷ _) = block
action_of _ _ = forward

unfoldable pub evaluate_request : Libs → Value → Policy → RequestEvaluation
evaluate_request libs request policy =
    if is_tools_call request
    then (let events =
          deny_events libs policy (tool_name_of request) ++ secret_events libs policy request in
        record { action = action_of policy.mode events; events = events })
    else record { action = forward; events = [] }
