-- ===== src/Proxy/Recording.antt =====
-- What the pumps do with every message dropped: the wire does not see the difference.
use mcpglass.Base.{
  Option, none, some, [], ◌≡◌, refl, ap, if◌then◌else◌, Bool, true, false, Bool-cases, inl, inr,
}
use mcpglass.Base.Text.{Bytes}
use mcpglass.Base.Int.{ℤ}
use mcpglass.Json.{Value}
use mcpglass.Message.{Direction}
use mcpglass.Policy.Libs.{Libs}
use mcpglass.Security.Decide.{Encode}
use mcpglass.Inject.Config.{Fault}
use mcpglass.Tap.State.{StorageMsg, RecordMode, full, metadata, off}
use mcpglass.Proxy.World.{Env, World, try_send, tap_frame, written, write_server, write_client}
use mcpglass.Proxy.Reads.Maps.{over}
use mcpglass.Proxy.Faults.{
  answer_client, answer_of, inject_to_server, replace_frame, inject_to_client,
}

-- The same outside, with a channel that takes nothing.
abbrev pub deaf : Env → Env
deaf env = record env { is_full = λ _. true }

-- The world but for what was sent.
abbrev pub unsent : World → World
unsent w = record w { sent = [] }

module _ (env : Env) where
  pub try_send-unsent :
      (msg : StorageMsg) (w : World)
      → try_send (deaf env) msg (unsent w) ≡ unsent (try_send env msg w)
  unfolding try_send
  try_send-unsent msg w = elim (Bool-cases (env.is_full w.step)) [
    | inl e ↦ rw (e, try_send) refl
    | inr e ↦ rw (e, try_send) refl
  ]

  pub tap_frame-unsent :
      (mode : RecordMode) (dir : Direction) (ts : ℤ) (frame : Bytes) (w : World)
      → tap_frame (deaf env) mode dir ts frame (unsent w)
        ≡ unsent (tap_frame env mode dir ts frame w)
  unfolding tap_frame
  tap_frame-unsent off dir ts frame w = refl
  tap_frame-unsent full dir ts frame w = try_send-unsent _ w
  tap_frame-unsent metadata dir ts frame w = try_send-unsent _ w

  module _ (libs : Libs) (enc : Encode) where
    answer_client-unsent :
        (resp : Option Bytes) (w : World)
        → answer_client (deaf env) libs enc resp (unsent w)
          ≡ unsent (answer_client env libs enc resp w)
    unfolding answer_client write_client written
    answer_client-unsent none w = refl
    answer_client-unsent (some resp) w = refl

    replace_frame-unsent :
        (resp : Option Bytes) (w : World)
        → replace_frame (deaf env) libs enc resp (unsent w)
          ≡ over unsent (replace_frame env libs enc resp w)
    unfolding replace_frame write_client written
    replace_frame-unsent none w = refl
    replace_frame-unsent (some resp) w = refl

    pub inject_to_server-unsent :
        (fault : Fault) (frame : Bytes) (id : Option Value) (w : World)
        → inject_to_server (deaf env) libs enc fault frame id (unsent w)
          ≡ over unsent (inject_to_server env libs enc fault frame id w)
    unfolding inject_to_server write_server written
    inject_to_server-unsent (Fault.delay ms) frame id w = refl
    inject_to_server-unsent (Fault.truncate bytes) frame id w = refl
    inject_to_server-unsent Fault.drop frame id w = refl
    inject_to_server-unsent (Fault.error code message) frame id w =
        ap (λ x. (true, x)) (answer_client-unsent (answer_of enc code message id) w)

    pub inject_to_client-unsent :
        (fault : Fault) (frame : Bytes) (id : Option Value) (w : World)
        → inject_to_client (deaf env) libs enc fault frame id (unsent w)
          ≡ over unsent (inject_to_client env libs enc fault frame id w)
    unfolding inject_to_client write_client written
    inject_to_client-unsent (Fault.delay ms) frame id w = refl
    inject_to_client-unsent (Fault.truncate bytes) frame id w = refl
    inject_to_client-unsent Fault.drop frame id w = refl
    inject_to_client-unsent (Fault.error code message) frame id w =
        replace_frame-unsent (answer_of enc code message id) w

-- The event of a fault, once it was written.
abbrev pub report_hit : Env → StorageMsg → Bool × World → Bool × World
report_hit env msg o = if o.0 then (true, try_send env msg o.1) else (false, o.1)

pub report_hit-unsent :
    (env : Env) (msg : StorageMsg) (o : Bool × World)
    → report_hit (deaf env) msg (over unsent o) ≡ over unsent (report_hit env msg o)
report_hit-unsent env msg (true, w) = ap (λ x. (true, x)) (try_send-unsent env msg w)
report_hit-unsent env msg (false, w) = refl
