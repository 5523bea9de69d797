-- ===== src/Proxy/ClientPump/Passes.antt =====
-- What the server is sent of the client's bytes.
use mcpglass.Base.{
  Option, none, some, List, [], ◌∷◌, ◌++◌, append-nil, append_assoc, ◌≡◌, refl, sym, ap, ◌∙◌, Bool,
  true, false, run, Option-cases, inl, inr,
}
use mcpglass.Base.Text.{Bytes}
use mcpglass.Base.Int.{ℤ, pos}
use mcpglass.Json.{Serde}
use mcpglass.Message.{c2s}
use mcpglass.Event.{SecurityEvent}
use mcpglass.Policy.Libs.{Libs}
use mcpglass.Policy.Config.{Mode, monitor, enforce}
use mcpglass.Security.Decide.{
  Encode, FrameAction, forward_frame, block_with_response, block_silent, Decision, decide_value,
  decide_c2s_frame,
}
use mcpglass.Framing.Framed as Framed
use mcpglass.Framing.Framed.{Chunk}
use mcpglass.Framing.Framed.Lossless.{tail_bytes}
use mcpglass.Proxy.World.{Env, World, now}
use mcpglass.Proxy.World.Writes.{
  WritesSucceed, write_client_all, write_server_all, try_send_server, tap_frame_server,
}
use mcpglass.Proxy.Reads.{on_reads}
use mcpglass.Proxy.Reads.Follows.{Adds, images, on_reads_lem}
use mcpglass.Proxy.Faults.{inject_decide}
use mcpglass.Proxy.ClientPump.{
  Pump, Settings, report_oversized, on_raw, send_hit, forward, act, send_events, record_frame,
  on_frame, on_chunk, flush_server, pump_c2s,
}

-- What reaches the server of a frame that the policy judged.
abbrev pub passed_frame : FrameAction → Bytes → Bytes
passed_frame forward_frame frame = frame ++ b'\n' ∷ []
passed_frame (block_with_response resp) frame = []
passed_frame block_silent frame = []

abbrev pub passed_raw : Mode → Bytes → Bytes
passed_raw enforce bytes = []
passed_raw monitor bytes = bytes

module _ (serde : Serde) (enc : Encode) (libs : Libs) (settings : Settings) where
  -- What reaches the server of a chunk: the time plays no part in the decision.
  abbrev pub passed : Chunk → Bytes
  passed (Chunk.raw bytes) = passed_raw settings.policy.mode bytes
  passed (Chunk.frame bytes) =
      passed_frame (decide_c2s_frame serde enc libs bytes settings.policy (pos 0)).action bytes

  decide_any_time :
      (frame : Bytes) (ts : ℤ)
      → (decide_c2s_frame serde enc libs frame settings.policy ts).action
        ≡ (decide_c2s_frame serde enc libs frame settings.policy (pos 0)).action
  unfolding decide_c2s_frame decide_value
  decide_any_time frame ts = elim (Option-cases (serde.from_slice frame)) [
    | inl e ↦ rw (e, decide_c2s_frame) refl
    | inr (v, e) ↦ rw (e, decide_c2s_frame) refl
  ]

module _ (env : Env) (succeed : WritesSucceed env) (serde : Serde) (enc : Encode) (libs : Libs)
    (settings : Settings) where
  abbrev Quiet : Pump → Type 0
  Quiet p = p.injector ≡ none

  -- A step of the pump that goes on and adds bytes to what the server was sent.
  abbrev Sends : Pump → Bool × Pump → Bytes → Type 0
  Sends p o bytes = (o.0 ≡ true) × Quiet o.1 × (o.1.world.server ≡ p.world.server ++ bytes)

  report_oversized_server :
      (dropping : Bool) (w : World)
      → (report_oversized env serde enc libs settings dropping w).server ≡ w.server
  unfolding report_oversized now
  report_oversized_server true w = refl
  report_oversized_server false w = try_send_server env _ _

  on_raw_lem :
      (mode : Mode) (bytes : Bytes) (p : Pump)
      → Quiet p
      → Sends p (on_raw env serde enc libs settings mode bytes p) (passed_raw mode bytes)
  unfolding on_raw
  on_raw_lem enforce bytes p h =
      (refl, h, report_oversized_server p.dropping p.world ∙ sym (append-nil p.world.server))
  on_raw_lem monitor bytes p h =
      let all = write_server_all env succeed bytes p.world in
      (ap (λ o. o.0) all, h, ap (λ o. o.1.server) all)

  forward_lem :
      (frame : Bytes) (ts : ℤ) (p : Pump)
      → Quiet p
      → Sends p (forward env serde enc libs settings frame ts p) (frame ++ b'\n' ∷ [])
  unfolding forward send_hit inject_decide
  forward_lem frame ts p h =
      let all = write_server_all env succeed (frame ++ b'\n' ∷ []) p.world in
      (
        rw (h, forward, inject_decide, send_hit) (ap (λ o. o.0) all),
        rw (h, forward, inject_decide, send_hit) refl,
        rw (h, forward, inject_decide, send_hit) (ap (λ o. o.1.server) all),
      )

  act_lem :
      (a : FrameAction) (frame : Bytes) (ts : ℤ) (p : Pump)
      → Quiet p
      → Sends p (act env serde enc libs settings a frame ts p) (passed_frame a frame)
  unfolding act
  act_lem forward_frame frame ts p h = forward_lem frame ts p h
  act_lem (block_with_response resp) frame ts p h =
      let all = write_client_all env succeed resp p.world in
      (refl, h, ap (λ o. o.1.server) all ∙ sym (append-nil p.world.server))
  act_lem block_silent frame ts p h = (refl, h, sym (append-nil p.world.server))

  send_events_server :
      (evs : List SecurityEvent) (w : World)
      → (send_events env serde enc libs settings evs w).server ≡ w.server
  unfolding send_events
  send_events_server [] w = refl
  send_events_server (ev ∷ evs) w = send_events_server evs _ ∙ try_send_server env _ w

  record_frame_lem :
      (d : Decision) (frame : Bytes) (ts : ℤ) (p : Pump) (o : Bool × Pump) (bytes : Bytes)
      → Sends p o bytes
      → Sends p (record_frame env serde enc libs settings d frame ts o) bytes
  unfolding record_frame
  record_frame_lem d frame ts p (true, q) bytes (go, quiet, sent) = (
    refl,
    quiet,
    send_events_server d.events _ ∙ tap_frame_server env settings.mode c2s ts frame q.world ∙ sent,
  )
  record_frame_lem d frame ts p (false, q) bytes (go, quiet, sent) = cc

  on_chunk-Adds :
      (c : Chunk) (p : Pump)
      → Quiet p
      → Adds
          (on_chunk env serde enc libs settings)
          Quiet
          (λ p. p.world.server)
          (passed serde enc libs settings)
          c
          p
  unfolding on_chunk on_frame now
  on_chunk-Adds (Chunk.raw bytes) p h =
      let (go, quiet, sent) = on_raw_lem settings.policy.mode bytes p h in
      record { goes_on = go; stays = quiet; adds = sent }
  on_chunk-Adds (Chunk.frame bytes) p h =
      let o = now env p.world in
      let d = decide_c2s_frame serde enc libs bytes settings.policy o.0 in
      let (go, quiet, sent) =
        record_frame_lem d bytes o.0 p _ _
          (act_lem d.action bytes o.0 (record p { world = o.1 }) h) in
      record {
        goes_on = go;
        stays = quiet;
        adds =
            sent
            ∙ ap (λ a. p.world.server ++ passed_frame a bytes)
                (decide_any_time serde enc libs settings bytes o.0);
      }

  flush_server_lem :
      (rest : Option Bytes) (w : World)
      → (flush_server env serde enc libs settings rest w).server ≡ w.server ++ tail_bytes rest
  unfolding flush_server
  flush_server_lem none w = sym (append-nil w.server)
  flush_server_lem (some rem) w = ap (λ o. o.1.server) (write_server_all env succeed rem w)

  -- With no fault injection configured and no write that fails, whatever the reads and the times:
  -- the server is sent, in order, each frame that the policy forwards, with its newline, each raw
  -- chunk unless the policy enforces, and the unterminated bytes at the end of the input; nothing
  -- of a frame that the policy withholds reaches it.
  pub pump_c2s-passed :
      (reads : List Bytes) (w : World)
      → let cut = run Framed.push (Framed.new settings.max_line_bytes) reads in
        (pump_c2s env serde enc libs settings reads none w).world.server
        ≡ w.server
          ++ (images (passed serde enc libs settings) cut.0 ++ tail_bytes (Framed.finish cut.1).0)
  unfolding pump_c2s
  pump_c2s-passed reads w =
      let start : Pump = record { dropping = false; injector = none; world = w } in
      let s = Framed.new settings.max_line_bytes in
      let end = on_reads (on_chunk env serde enc libs settings) reads (s, start) in
      let (ends, outs) =
        on_reads_lem (on_chunk env serde enc libs settings) Quiet (λ p. p.world.server)
          (passed serde enc libs settings) on_chunk-Adds reads s start refl in
      flush_server_lem (Framed.finish end.0).0 end.1.world
      ∙ ap (λ x. x ++ tail_bytes (Framed.finish end.0).0) outs
      ∙ append_assoc w.server _ _
      ∙ ap
          (λ s.
            w.server
            ++ (images (passed serde enc libs settings)
                  (run Framed.push (Framed.new settings.max_line_bytes) reads).0
                ++ tail_bytes (Framed.finish s).0))
          ends
