-- ===== src/Proxy/ClientPump.antt =====
-- `pump_c2s` of crates/cli/src/main.rs: from the client to the server, through the policy. The
-- panic of the decision that the source catches does not arise: the model's decision is total.
use mcpglass.Base.{
  ℕ, Option, none, some, List, [], ◌∷◌, ◌++◌, Bool, true, false, not, ◌==◌, if◌then◌else◌,
}
use mcpglass.Base.Text.{Bytes, codes}
use mcpglass.Base.Int.{ℤ}
use mcpglass.Json.{Serde}
use mcpglass.Message.{c2s}
use mcpglass.Event.{SecurityEvent, policy_deny, blocked}
use mcpglass.Policy.Libs.{Libs}
use mcpglass.Policy.Config.{Mode, monitor, enforce, Policy}
use mcpglass.Security.Decide.{
  Encode, FrameAction, forward_frame, block_with_response, block_silent, Decision, decide_c2s_frame,
}
use mcpglass.Framing.Framed as Framed
use mcpglass.Framing.Framed.{Chunk, FramedStream}
use mcpglass.Inject.Config as Config
use mcpglass.Inject.Injector.{Injector, InjectHit}
use mcpglass.Tap.State.{RecordMode, security, inject}
use mcpglass.Proxy.World.{Env, World, now, try_send, tap_frame, write_server, write_client}
use mcpglass.Proxy.Reads.{on_reads}
use mcpglass.Proxy.Faults.{
  Parsed, parse_for_injection, inject_decide, inject_to_server, c2s_detail, inject_event,
}
pub mod Monitor
pub mod Passes
pub mod Recording

-- What the pump keeps beside its splitter: the latch while the segments of an over-long frame are
-- dropped, and the injector.
pub record Pump : Type 0 where
  pub dropping : Bool
  pub injector : Option Injector
  pub world : World

-- What a pump is started with.
pub record Settings : Type 0 where
  pub policy : Policy
  pub max_line_bytes : ℕ
  pub mode : RecordMode

-- `bytes.last() == Some(&b'\n')`.
unfoldable pub ends_line : Bytes → Bool
ends_line [] = false
ends_line (x ∷ []) = x == b'\n'
ends_line (x ∷ y ∷ ys) = ends_line (y ∷ ys)

module _ (env : Env) (serde : Serde) (enc : Encode) (libs : Libs) (settings : Settings) where
  unfoldable pub oversized_event : ℤ → SecurityEvent
  oversized_event ts_ms = record {
    ts_ms = ts_ms;
    kind = policy_deny;
    rule = codes "oversized-frame";
    detail =
        codes "client->server frame exceeded "
        ++ (libs.decimal settings.max_line_bytes
            ++ codes " bytes; blocked in enforce mode (uninspectable, gate bypass)");
    tool_name = none;
    rpc_id = none;
    action_taken = blocked;
  }

  -- One event for the first segment of an over-long frame.
  unfoldable pub report_oversized : Bool → World → World
  report_oversized true w = w
  report_oversized false w = let o = now env w in try_send env (security (oversized_event o.0)) o.1

  unfoldable pub on_raw : Mode → Bytes → Pump → Bool × Pump
  on_raw enforce bytes p = (
    true,
    record p { dropping = not (ends_line bytes); world = report_oversized p.dropping p.world },
  )
  on_raw monitor bytes p = let o = write_server env bytes p.world in (o.0, record p { world = o.1 })

  -- The injection into a frame that is forwarded: nothing without a hit.
  unfoldable pub send_hit : Option InjectHit → Bytes → Parsed → ℤ → World → Bool × World
  send_hit none frame parsed ts w = write_server env (frame ++ b'\n' ∷ []) w
  send_hit (some hit) frame parsed ts w =
      let o = inject_to_server env libs enc hit.fault frame parsed.id_value w in
      if o.0
      then (
        true,
        try_send env
            (inject (
              inject_event env libs enc c2s (c2s_detail env libs enc hit.fault frame) hit parsed
                ts))
            o.1,
      )
      else (false, o.1)

  unfoldable pub forward : Bytes → ℤ → Pump → Bool × Pump
  forward frame ts p =
      let parsed = parse_for_injection serde frame in
      let chosen = inject_decide p.injector Config.c2s parsed.method in
      let o = send_hit chosen.0 frame parsed ts p.world in
      (o.0, record p { injector = chosen.1; world = o.1 })

  -- The wire action of a decision.
  unfoldable pub act : FrameAction → Bytes → ℤ → Pump → Bool × Pump
  act forward_frame frame ts p = forward frame ts p
  act (block_with_response resp) frame ts p =
      (true, record p { world = (write_client env resp p.world).1 })
  act block_silent frame ts p = (true, p)

  unfoldable pub send_events : List SecurityEvent → World → World
  send_events [] w = w
  send_events (ev ∷ evs) w = send_events evs (try_send env (security ev) w)

  -- The record of the frame and its events, unless the write failed.
  unfoldable pub record_frame : Decision → Bytes → ℤ → Bool × Pump → Bool × Pump
  record_frame d frame ts (false, p) = (false, p)
  record_frame d frame ts (true, p) = (
    true,
    record p { world = send_events d.events (tap_frame env settings.mode c2s ts frame p.world) },
  )

  unfoldable pub on_frame : Bytes → Pump → Bool × Pump
  on_frame frame p =
      let o = now env p.world in
      let d = decide_c2s_frame serde enc libs frame settings.policy o.0 in
      record_frame d frame o.0 (act d.action frame o.0 (record p { world = o.1 }))

  unfoldable pub on_chunk : Chunk → Pump → Bool × Pump
  on_chunk (Chunk.raw bytes) p = on_raw settings.policy.mode bytes p
  on_chunk (Chunk.frame bytes) p = on_frame bytes p

  -- What is left at the end goes out as it is.
  unfoldable pub flush_server : Option Bytes → World → World
  flush_server none w = w
  flush_server (some rem) w = (write_server env rem w).1

  unfoldable pub pump_c2s : List Bytes → Option Injector → World → Pump
  pump_c2s reads injector w =
      let o = on_reads on_chunk reads (
        Framed.new settings.max_line_bytes,
        record { dropping = false; injector = injector; world = w },
      ) in
      record o.1 { world = flush_server (Framed.finish o.0).0 o.1.world }
