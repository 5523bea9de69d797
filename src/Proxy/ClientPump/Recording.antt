-- ===== src/Proxy/ClientPump/Recording.antt =====
-- Recording does not change what the client-to-server pump writes.
use mcpglass.Base.{Option, none, some, List, [], ◌∷◌, ◌≡◌, refl, ap, ◌∙◌, Bool, true, false, not}
use mcpglass.Base.Text.{Bytes}
use mcpglass.Base.Int.{ℤ}
use mcpglass.Json.{Serde}
use mcpglass.Message.{c2s}
use mcpglass.Event.{SecurityEvent}
use mcpglass.Policy.Libs.{Libs}
use mcpglass.Policy.Config.{Mode, monitor, enforce}
use mcpglass.Security.Decide.{
  Encode, FrameAction, forward_frame, block_with_response, block_silent, Decision, decide_c2s_frame,
}
use mcpglass.Framing.Framed as Framed
use mcpglass.Framing.Framed.{Chunk}
use mcpglass.Inject.Config as Config
use mcpglass.Inject.Injector.{Injector, InjectHit}
use mcpglass.Tap.State.{security, inject}
use mcpglass.Proxy.World.{Env, World, now, written, write_server, write_client}
use mcpglass.Proxy.Reads.{on_reads}
use mcpglass.Proxy.Reads.Maps.{over, on_reads-over}
use mcpglass.Proxy.Recording.{
  deaf, unsent, try_send-unsent, tap_frame-unsent, inject_to_server-unsent, report_hit,
  report_hit-unsent,
}
use mcpglass.Proxy.Faults.{
  Parsed, inject_to_server, inject_decide, parse_for_injection, c2s_detail, inject_event,
  truncated_detail,
}
use mcpglass.Proxy.ClientPump.{
  Pump, Settings, report_oversized, oversized_event, ends_line, on_raw, send_hit, forward, act,
  send_events, record_frame, on_frame, on_chunk, flush_server, pump_c2s,
}

-- The pump but for what was sent.
abbrev pub pump_unsent : Pump → Pump
pump_unsent p = record p { world = unsent p.world }

module _ (env : Env) (serde : Serde) (enc : Encode) (libs : Libs) (settings : Settings) where
  report_oversized-unsent :
      (dropping : Bool) (w : World)
      → report_oversized (deaf env) serde enc libs settings dropping (unsent w)
        ≡ unsent (report_oversized env serde enc libs settings dropping w)
  unfolding report_oversized oversized_event now
  report_oversized-unsent true w = refl
  report_oversized-unsent false w =
      try_send-unsent env (security (oversized_event env serde enc libs settings (now env w).0))
        (now env w).1

  on_raw-unsent :
      (mode : Mode) (bytes : Bytes) (p : Pump)
      → on_raw (deaf env) serde enc libs settings mode bytes (pump_unsent p)
        ≡ over pump_unsent (on_raw env serde enc libs settings mode bytes p)
  unfolding on_raw write_server written
  on_raw-unsent enforce bytes p =
      ap (λ w. (true, record p { dropping = not (ends_line bytes); world = w }))
        (report_oversized-unsent p.dropping p.world)
  on_raw-unsent monitor bytes p = refl

  send_hit-unsent :
      (hit : Option InjectHit) (frame : Bytes) (parsed : Parsed) (ts : ℤ) (w : World)
      → send_hit (deaf env) serde enc libs settings hit frame parsed ts (unsent w)
        ≡ over unsent (send_hit env serde enc libs settings hit frame parsed ts w)
  unfolding send_hit write_server written c2s_detail inject_event truncated_detail
  send_hit-unsent none frame parsed ts w = refl
  send_hit-unsent (some hit) frame parsed ts w =
      ap
        (report_hit (deaf env) (
          inject (
            inject_event env libs enc c2s (c2s_detail env libs enc hit.fault frame) hit parsed ts)))
        (inject_to_server-unsent env libs enc hit.fault frame parsed.id_value w)
      ∙ report_hit-unsent env
          (inject
            (inject_event env libs enc c2s (c2s_detail env libs enc hit.fault frame) hit parsed ts))
          (inject_to_server env libs enc hit.fault frame parsed.id_value w)

  forward-unsent :
      (frame : Bytes) (ts : ℤ) (p : Pump)
      → forward (deaf env) serde enc libs settings frame ts (pump_unsent p)
        ≡ over pump_unsent (forward env serde enc libs settings frame ts p)
  unfolding forward
  forward-unsent frame ts p =
      let parsed = parse_for_injection serde frame in
      let chosen = inject_decide p.injector Config.c2s parsed.method in
      ap (λ o. (o.0, record p { injector = chosen.1; world = o.1 }))
        (send_hit-unsent chosen.0 frame parsed ts p.world)

  act-unsent :
      (a : FrameAction) (frame : Bytes) (ts : ℤ) (p : Pump)
      → act (deaf env) serde enc libs settings a frame ts (pump_unsent p)
        ≡ over pump_unsent (act env serde enc libs settings a frame ts p)
  unfolding act write_client written
  act-unsent forward_frame frame ts p = forward-unsent frame ts p
  act-unsent (block_with_response resp) frame ts p = refl
  act-unsent block_silent frame ts p = refl

  send_events-unsent :
      (evs : List SecurityEvent) (w : World)
      → send_events (deaf env) serde enc libs settings evs (unsent w)
        ≡ unsent (send_events env serde enc libs settings evs w)
  unfolding send_events
  send_events-unsent [] w = refl
  send_events-unsent (ev ∷ evs) w =
      ap (send_events (deaf env) serde enc libs settings evs) (try_send-unsent env _ w)
      ∙ send_events-unsent evs _

  record_frame-unsent :
      (d : Decision) (frame : Bytes) (ts : ℤ) (o : Bool × Pump)
      → record_frame (deaf env) serde enc libs settings d frame ts (over pump_unsent o)
        ≡ over pump_unsent (record_frame env serde enc libs settings d frame ts o)
  unfolding record_frame
  record_frame-unsent d frame ts (false, p) = refl
  record_frame-unsent d frame ts (true, p) =
      ap (λ w. (true, record p { world = w }))
        (ap (send_events (deaf env) serde enc libs settings d.events)
            (tap_frame-unsent env settings.mode c2s ts frame p.world)
          ∙ send_events-unsent d.events _)

  on_chunk-unsent :
      (c : Chunk) (p : Pump)
      → on_chunk (deaf env) serde enc libs settings c (pump_unsent p)
        ≡ over pump_unsent (on_chunk env serde enc libs settings c p)
  unfolding on_chunk on_frame now
  on_chunk-unsent (Chunk.raw bytes) p = on_raw-unsent settings.policy.mode bytes p
  on_chunk-unsent (Chunk.frame bytes) p =
      let o = now env p.world in
      let d = decide_c2s_frame serde enc libs bytes settings.policy o.0 in
      ap (record_frame (deaf env) serde enc libs settings d bytes o.0)
        (act-unsent d.action bytes o.0 (record p { world = o.1 }))
      ∙ record_frame-unsent d bytes o.0 _

  flush_server-unsent :
      (rest : Option Bytes) (w : World)
      → flush_server (deaf env) serde enc libs settings rest (unsent w)
        ≡ unsent (flush_server env serde enc libs settings rest w)
  unfolding flush_server write_server written
  flush_server-unsent none w = refl
  flush_server-unsent (some rem) w = refl

  -- Whatever the policy, the faults that are injected, the writes that fail and the reads: what the
  -- pump writes to the server and to the client, and what it keeps, is the same when the channel to
  -- the storage thread takes no message at all as when it takes any of them.
  pub pump_c2s-unsent :
      (reads : List Bytes) (injector : Option Injector) (w : World)
      → pump_c2s (deaf env) serde enc libs settings reads injector (unsent w)
        ≡ pump_unsent (pump_c2s env serde enc libs settings reads injector w)
  unfolding pump_c2s
  pump_c2s-unsent reads injector w =
      let start : Pump = record { dropping = false; injector = injector; world = w } in
      let s = Framed.new settings.max_line_bytes in
      ap
        (λ o. record o.1 {
          world = flush_server (deaf env) serde enc libs settings (Framed.finish o.0).0 o.1.world;
        })
        (on_reads-over (on_chunk (deaf env) serde enc libs settings)
          (on_chunk env serde enc libs settings) pump_unsent on_chunk-unsent reads s start)
      ∙ ap
          (λ v. record (on_reads (on_chunk env serde enc libs settings) reads (s, start)).1 {
            world = v;
          })
          (flush_server-unsent _ _)
