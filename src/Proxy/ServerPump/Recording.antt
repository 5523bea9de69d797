-- ===== src/Proxy/ServerPump/Recording.antt =====
-- Recording does not change what the server-to-client pump writes.
use mcpglass.Base.{ℕ, Option, none, some, List, ◌≡◌, refl, ap, ◌∙◌, Bool, true, false}
use mcpglass.Base.Text.{Bytes}
use mcpglass.Base.Int.{ℤ}
use mcpglass.Json.{Serde}
use mcpglass.Message.{s2c}
use mcpglass.Policy.Libs.{Libs}
use mcpglass.Security.Decide.{Encode}
use mcpglass.Framing.Framed as Framed
use mcpglass.Framing.Framed.{Chunk}
use mcpglass.Inject.Config as Config
use mcpglass.Inject.Injector.{Injector, InjectHit}
use mcpglass.Tap.State.{RecordMode, inject}
use mcpglass.Proxy.World.{Env, World, now, written, write_client}
use mcpglass.Proxy.Reads.{on_reads}
use mcpglass.Proxy.Reads.Maps.{over, on_reads-over}
use mcpglass.Proxy.Recording.{
  deaf, unsent, tap_frame-unsent, inject_to_client-unsent, report_hit, report_hit-unsent,
}
use mcpglass.Proxy.Faults.{
  Parsed, inject_to_client, inject_decide, parse_for_injection, s2c_detail, inject_event,
  truncated_detail,
}
use mcpglass.Proxy.ServerPump.{
  Relay, deliver_hit, tap_delivered, deliver, on_server_chunk, flush_client, pump_s2c,
}

-- The pump but for what was sent.
abbrev pub relay_unsent : Relay → Relay
relay_unsent r = record r { world = unsent r.world }

module _ (env : Env) (serde : Serde) (enc : Encode) (libs : Libs) (mode : RecordMode) where
  deliver_hit-unsent :
      (hit : Option InjectHit) (frame : Bytes) (parsed : Parsed) (ts : ℤ) (w : World)
      → deliver_hit (deaf env) serde enc libs mode hit frame parsed ts (unsent w)
        ≡ over unsent (deliver_hit env serde enc libs mode hit frame parsed ts w)
  unfolding deliver_hit write_client written s2c_detail inject_event truncated_detail
  deliver_hit-unsent none frame parsed ts w = refl
  deliver_hit-unsent (some hit) frame parsed ts w =
      let msg =
        inject
          (inject_event env libs enc s2c (s2c_detail env libs enc hit.fault frame) hit parsed ts) in
      ap (report_hit (deaf env) msg)
        (inject_to_client-unsent env libs enc hit.fault frame parsed.id_value w)
      ∙ report_hit-unsent env msg (inject_to_client env libs enc hit.fault frame parsed.id_value w)

  tap_delivered-unsent :
      (ts : ℤ) (frame : Bytes) (o : Bool × World)
      → tap_delivered (deaf env) serde enc libs mode ts frame (over unsent o)
        ≡ over unsent (tap_delivered env serde enc libs mode ts frame o)
  unfolding tap_delivered
  tap_delivered-unsent ts frame (false, w) = refl
  tap_delivered-unsent ts frame (true, w) =
      ap (λ w. (true, w)) (tap_frame-unsent env mode s2c ts frame w)

  on_server_chunk-unsent :
      (c : Chunk) (r : Relay)
      → on_server_chunk (deaf env) serde enc libs mode c (relay_unsent r)
        ≡ over relay_unsent (on_server_chunk env serde enc libs mode c r)
  unfolding on_server_chunk deliver now write_client written
  on_server_chunk-unsent (Chunk.raw bytes) r = refl
  on_server_chunk-unsent (Chunk.frame bytes) r =
      let o = now env r.world in
      let parsed = parse_for_injection serde bytes in
      let chosen = inject_decide r.injector Config.s2c parsed.method in
      ap (λ d. (d.0, record { injector = chosen.1; world = d.1 }))
        (ap (tap_delivered (deaf env) serde enc libs mode o.0 bytes)
            (deliver_hit-unsent chosen.0 bytes parsed o.0 o.1)
          ∙ tap_delivered-unsent o.0 bytes
              (deliver_hit env serde enc libs mode chosen.0 bytes parsed o.0 o.1))

  flush_client-unsent :
      (rest : Option Bytes) (w : World)
      → flush_client (deaf env) serde enc libs mode rest (unsent w)
        ≡ unsent (flush_client env serde enc libs mode rest w)
  unfolding flush_client write_client written
  flush_client-unsent none w = refl
  flush_client-unsent (some rem) w = refl

  -- Whatever the faults that are injected, the writes that fail and the reads: what the pump writes
  -- to the client, and what it keeps, is the same when the channel to the storage thread takes no
  -- message at all as when it takes any of them.
  pub pump_s2c-unsent :
      (max_line_bytes : ℕ) (reads : List Bytes) (injector : Option Injector) (w : World)
      → pump_s2c (deaf env) serde enc libs mode max_line_bytes reads injector (unsent w)
        ≡ relay_unsent (pump_s2c env serde enc libs mode max_line_bytes reads injector w)
  unfolding pump_s2c
  pump_s2c-unsent max_line_bytes reads injector w =
      let start : Relay = record { injector = injector; world = w } in
      let s = Framed.new max_line_bytes in
      let end = on_reads (on_server_chunk env serde enc libs mode) reads (s, start) in
      ap
        (λ o. record o.1 {
          world = flush_client (deaf env) serde enc libs mode (Framed.finish o.0).0 o.1.world;
        })
        (on_reads-over (on_server_chunk (deaf env) serde enc libs mode)
          (on_server_chunk env serde enc libs mode) relay_unsent on_server_chunk-unsent reads s
          start)
      ∙ ap (λ v. record end.1 { world = v })
          (flush_client-unsent (Framed.finish end.0).0 end.1.world)
