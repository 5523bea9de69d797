-- ===== src/Event.antt =====
-- The rows of crates/storage/src/lib.rs that are written from elsewhere: `Record`,
-- `SecurityEvent`, `InjectEvent`, and the tokens that stand in the database for enumerations.
pub mod Tokens
use mcpglass.Base.{Bool, Option, none, some, if◌then◌else◌}
use mcpglass.Base.Int.{ℤ}
use mcpglass.Base.Text.{Text, codes, text_eq}
use mcpglass.Message.{Direction}

-- One captured frame.
pub record Record : Type 0 where
  pub ts_ms : ℤ
  pub direction : Direction
  pub raw : Text
  pub method : Option Text
  pub rpc_id : Option Text
  pub is_valid_json : Bool
  pub is_error : Bool

pub data SecurityEventKind : Type 0 where
  policy_deny secret_leak fingerprint_change : SecurityEventKind

unfoldable pub kind_as_str : SecurityEventKind → Text
kind_as_str policy_deny = codes "policy_deny"
kind_as_str secret_leak = codes "secret_leak"
kind_as_str fingerprint_change = codes "fingerprint_change"

unfoldable pub kind_from_str : Text → Option SecurityEventKind
kind_from_str s =
    if text_eq s (codes "policy_deny")
    then some policy_deny
    else if text_eq s (codes "secret_leak")
    then some secret_leak
    else if text_eq s (codes "fingerprint_change")
    then some fingerprint_change
    else none

pub data ActionTaken : Type 0 where
  flagged blocked : ActionTaken

unfoldable pub action_as_str : ActionTaken → Text
action_as_str flagged = codes "flagged"
action_as_str blocked = codes "blocked"

unfoldable pub action_from_str : Text → Option ActionTaken
action_from_str s =
    if text_eq s (codes "flagged")
    then some flagged
    else if text_eq s (codes "blocked")
    then some blocked
    else none

pub record SecurityEvent : Type 0 where
  pub ts_ms : ℤ
  pub kind : SecurityEventKind
  pub rule : Text
  pub detail : Text
  pub tool_name : Option Text
  pub rpc_id : Option Text
  pub action_taken : ActionTaken

pub data InjectFault : Type 0 where
  delay error drop truncate : InjectFault

unfoldable pub fault_as_str : InjectFault → Text
fault_as_str delay = codes "delay"
fault_as_str error = codes "error"
fault_as_str drop = codes "drop"
fault_as_str truncate = codes "truncate"

unfoldable pub fault_from_str : Text → Option InjectFault
fault_from_str s =
    if text_eq s (codes "delay")
    then some delay
    else if text_eq s (codes "error")
    then some error
    else if text_eq s (codes "drop")
    then some drop
    else if text_eq s (codes "truncate")
    then some truncate
    else none

pub record InjectEvent : Type 0 where
  pub ts_ms : ℤ
  pub direction : Direction
  pub rule : Text
  pub fault : InjectFault
  pub detail : Text
  pub method : Option Text
  pub rpc_id : Option Text
