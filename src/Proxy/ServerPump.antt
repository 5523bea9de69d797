-- ===== src/Proxy/ServerPump.antt =====
-- `pump_s2c` of crates/cli/src/main.rs: from the server to the client, with no decision.
use mcpglass.Base.{ℕ, Option, none, some, List, [], ◌∷◌, ◌++◌, Bool, true, false, if◌then◌else◌}
use mcpglass.Base.Text.{Bytes}
use mcpglass.Base.Int.{ℤ}
use mcpglass.Json.{Serde}
use mcpglass.Message.{s2c}
use mcpglass.Policy.Libs.{Libs}
use mcpglass.Security.Decide.{Encode}
use mcpglass.Framing.Framed as Framed
use mcpglass.Framing.Framed.{Chunk}
use mcpglass.Inject.Config as Config
use mcpglass.Inject.Injector.{Injector, InjectHit}
use mcpglass.Tap.State.{RecordMode, inject}
use mcpglass.Proxy.World.{Env, World, now, try_send, tap_frame, write_client}
use mcpglass.Proxy.Reads.{on_reads}
use mcpglass.Proxy.Faults.{
  Parsed, parse_for_injection, inject_decide, inject_to_client, s2c_detail, inject_event,
}
pub mod Recording
pub mod Whole

-- What the pump keeps beside its splitter.
pub record Relay : Type 0 where
  pub injector : Option Injector
  pub world : World

module _ (env : Env) (serde : Serde) (enc : Encode) (libs : Libs) (mode : RecordMode) where
  unfoldable pub deliver_hit : Option InjectHit → Bytes → Parsed → ℤ → World → Bool × World
  deliver_hit none frame parsed ts w = write_client env (frame ++ b'\n' ∷ []) w
  deliver_hit (some hit) frame parsed ts w =
      let o = inject_to_client env libs enc hit.fault frame parsed.id_value w in
      if o.0
      then (
        true,
        try_send env
            (inject (
              inject_event env libs enc s2c (s2c_detail env libs enc hit.fault frame) hit parsed
                ts))
            o.1,
      )
      else (false, o.1)

  -- The tap behind the write, unless the write failed.
  unfoldable pub tap_delivered : ℤ → Bytes → Bool × World → Bool × World
  tap_delivered ts frame (false, w) = (false, w)
  tap_delivered ts frame (true, w) = (true, tap_frame env mode s2c ts frame w)

  unfoldable pub deliver : Bytes → Relay → Bool × Relay
  deliver frame r =
      let o = now env r.world in
      let parsed = parse_for_injection serde frame in
      let chosen = inject_decide r.injector Config.s2c parsed.method in
      let d = tap_delivered o.0 frame (deliver_hit chosen.0 frame parsed o.0 o.1) in
      (d.0, record { injector = chosen.1; world = d.1 })

  unfoldable pub on_server_chunk : Chunk → Relay → Bool × Relay
  on_server_chunk (Chunk.raw bytes) r =
      let o = write_client env bytes r.world in (o.0, record r { world = o.1 })
  on_server_chunk (Chunk.frame bytes) r = deliver bytes r

  unfoldable pub flush_client : Option Bytes → World → World
  flush_client none w = w
  flush_client (some rem) w = (write_client env rem w).1

  unfoldable pub pump_s2c : ℕ → List Bytes → Option Injector → World → Relay
  pump_s2c max_line_bytes reads injector w =
      let o =
        on_reads on_server_chunk reads
          (Framed.new max_line_bytes, record { injector = injector; world = w }) in
      record o.1 { world = flush_client (Framed.finish o.0).0 o.1.world }
