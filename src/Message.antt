-- ===== src/Message.antt =====
-- `Direction`, `ParsedMessage` and `parse_line` of crates/proxy-core/src/lib.rs.
pub mod Parse
use mcpglass.Base.{Bool, true, false, ◌&&◌, Option, none, some, if◌then◌else◌}
use mcpglass.Base.Text.{Text, Bytes, codes, text_eq}
use mcpglass.Json.{Serde, Value, null, string, get, get_str, ◌>>=◌}

pub data Direction : Type 0 where
  c2s s2c : Direction

unfoldable pub as_str : Direction → Text
as_str c2s = codes "c2s"
as_str s2c = codes "s2c"

unfoldable pub from_str : Text → Option Direction
from_str s =
    if text_eq s (codes "c2s") then some c2s else if text_eq s (codes "s2c") then some s2c else none

-- `direction == Direction::S2c`.
abbrev pub is_s2c : Direction → Bool
is_s2c c2s = false
is_s2c s2c = true

pub record ParsedMessage : Type 0 where
  pub method : Option Text
  pub rpc_id : Option Text
  pub is_valid_json : Bool
  pub is_error : Bool

abbrev pub is_some {ℓ} : {A : Type ℓ} → Option A → Bool
is_some none = false
is_some (some _) = true

-- An id as text: `normalize_id` of crates/cli/src/security.rs.
unfoldable pub normalize_id : Serde → Value → Option Text
normalize_id serde null = none
normalize_id serde (string s) = some s
normalize_id serde other = some (serde.to_string other)

-- The same in `parse_line`, where it stands inline.
unfoldable pub rpc_id_of : Serde → Value → Option Text
rpc_id_of serde null = none
rpc_id_of serde (string s) = some s
rpc_id_of serde other = some (serde.to_string other)

unfoldable pub message_of : Serde → Value → Direction → ParsedMessage
message_of serde value direction = record {
  method = get_str (codes "method") value;
  rpc_id = get (codes "id") value >>= rpc_id_of serde;
  is_valid_json = true;
  is_error = is_s2c direction && is_some (get (codes "error") value);
}

abbrev pub unparsed : ParsedMessage
unparsed = record { method = none; rpc_id = none; is_valid_json = false; is_error = false }

unfoldable pub parse_line : Serde → Bytes → Direction → ParsedMessage
parse_line serde line direction = elim (serde.from_slice line) [
  | none ↦ unparsed
  | some value ↦ message_of serde value direction
]
