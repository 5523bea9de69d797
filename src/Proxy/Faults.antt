-- ===== src/Proxy/Faults.antt =====
-- The injection of faults into the frames that a pump forwards: crates/cli/src/main.rs.
use mcpglass.Base.{ℕ, Option, none, some, [], ◌∷◌, ◌++◌, Bool, true, take, min, length}
use mcpglass.Base.Text.{Text, Bytes, codes}
use mcpglass.Base.Int.{ℤ}
use mcpglass.Json.{Value, null, Serde, get, get_str, ◌>>=◌}
use mcpglass.Message.{Direction, normalize_id}
use mcpglass.Event.{InjectFault, delay, error, drop, truncate, InjectEvent}
use mcpglass.Policy.Libs.{Libs}
use mcpglass.Security.Decide.{Encode, synthesize_error_custom}
use mcpglass.Inject.Config.{Fault, InjectDirection}
use mcpglass.Inject.Injector.{Injector, InjectHit, decide}
use mcpglass.Proxy.World.{Env, World, write_server, write_client}

unfoldable pub fault_kind : Fault → InjectFault
fault_kind (Fault.delay _) = delay
fault_kind (Fault.error _ _) = error
fault_kind Fault.drop = drop
fault_kind (Fault.truncate _) = truncate

-- What is read of a frame: its method, its id, and the text of the id.
pub record Parsed : Type 0 where
  pub method : Option Text
  pub id_value : Option Value
  pub rpc_id : Option Text

unfoldable pub parse_for_injection : Serde → Bytes → Parsed
parse_for_injection serde frame =
    let value = serde.from_slice frame in
    let id_value = value >>= get (codes "id") in
    record {
      method = value >>= get_str (codes "method");
      id_value = id_value;
      rpc_id = id_value >>= normalize_id serde;
    }

-- `inject_decide`: no injector injects nothing. The lock is never poisoned, since `decide` does not
-- panic.
unfoldable pub inject_decide :
    Option Injector → InjectDirection → Option Text → Option InjectHit × Option Injector
inject_decide none dir method = (none, none)
inject_decide (some inj) dir method = let o = decide inj dir method in (o.0, some o.1)

-- `frame[..end]` and a newline.
unfoldable pub corrupt : ℕ → Bytes → Bytes
corrupt bytes frame = take (min bytes (length frame)) frame ++ b'\n' ∷ []

-- `id_value.filter(|v| !v.is_null())`, answered with an error and a newline.
unfoldable pub answer_of : Encode → ℤ → Text → Option Value → Option Bytes
answer_of enc code message none = none
answer_of enc code message (some null) = none
answer_of enc code message (some id) =
    some (synthesize_error_custom enc id code message ++ b'\n' ∷ [])

module _ (env : Env) (libs : Libs) (enc : Encode) where
  -- On the way to the server a failed answer to the client is logged, not fatal.
  unfoldable pub answer_client : Option Bytes → World → World
  answer_client none w = w
  answer_client (some resp) w = (write_client env resp w).1

  -- The write of `apply_c2s_injection`, and whether it succeeded.
  unfoldable pub inject_to_server : Fault → Bytes → Option Value → World → Bool × World
  inject_to_server (Fault.delay ms) frame id_value w = write_server env (frame ++ b'\n' ∷ []) w
  inject_to_server (Fault.truncate bytes) frame id_value w =
      write_server env (corrupt bytes frame) w
  inject_to_server Fault.drop frame id_value w = (true, w)
  inject_to_server (Fault.error code message) frame id_value w =
      (true, answer_client (answer_of enc code message id_value) w)

  -- The write of `apply_s2c_injection`; here a failed answer is fatal.
  unfoldable pub replace_frame : Option Bytes → World → Bool × World
  replace_frame none w = (true, w)
  replace_frame (some resp) w = write_client env resp w

  unfoldable pub inject_to_client : Fault → Bytes → Option Value → World → Bool × World
  inject_to_client (Fault.delay ms) frame id_value w = write_client env (frame ++ b'\n' ∷ []) w
  inject_to_client (Fault.truncate bytes) frame id_value w =
      write_client env (corrupt bytes frame) w
  inject_to_client Fault.drop frame id_value w = (true, w)
  inject_to_client (Fault.error code message) frame id_value w =
      replace_frame (answer_of enc code message id_value) w

  -- `truncated .. frame to {end} of {len} bytes then ..`.
  unfoldable pub truncated_detail : Text → Text → ℕ → Bytes → Text
  truncated_detail leg after bytes frame =
      codes "truncated "
      ++ (leg
          ++ (codes " frame to "
              ++ (libs.decimal (min bytes (length frame))
                  ++ (codes " of "
                      ++ (libs.decimal (length frame) ++ (codes " bytes then " ++ after))))))

  unfoldable pub c2s_detail : Fault → Bytes → Text
  c2s_detail (Fault.delay ms) frame =
      codes "delayed c2s frame by " ++ (libs.decimal ms ++ codes "ms then forwarded")
  c2s_detail (Fault.truncate bytes) frame =
      truncated_detail (codes "c2s") (codes "forwarded") bytes frame
  c2s_detail Fault.drop frame = codes "dropped c2s frame (not forwarded)"
  c2s_detail (Fault.error code message) frame =
      codes "synthesized error code="
      ++ (enc.int_text code
          ++ (codes " message="
              ++ (libs.debug message ++ codes " for c2s frame (server not sent)")))

  unfoldable pub s2c_detail : Fault → Bytes → Text
  s2c_detail (Fault.delay ms) frame =
      codes "delayed s2c frame by " ++ (libs.decimal ms ++ codes "ms then delivered")
  s2c_detail (Fault.truncate bytes) frame =
      truncated_detail (codes "s2c") (codes "delivered") bytes frame
  s2c_detail Fault.drop frame = codes "dropped s2c frame (not delivered to client)"
  s2c_detail (Fault.error code message) frame =
      codes "replaced s2c frame with error code="
      ++ (enc.int_text code ++ (codes " message=" ++ libs.debug message))

  unfoldable pub inject_event : Direction → Text → InjectHit → Parsed → ℤ → InjectEvent
  inject_event dir detail hit p ts_ms = record {
    ts_ms = ts_ms;
    direction = dir;
    rule = hit.rule_label;
    fault = fault_kind hit.fault;
    detail = detail;
    method = p.method;
    rpc_id = p.rpc_id;
  }
