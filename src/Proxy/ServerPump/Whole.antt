-- ===== src/Proxy/ServerPump/Whole.antt =====
-- The server's bytes reach the client whole.
use mcpglass.Base.{
  ℕ, ◌+◌, Option, none, some, List, [], ◌∷◌, ◌++◌, append-nil, append_assoc, ◌≡◌, refl, sym, ap,
  ◌∙◌, true, run, concat,
}
use mcpglass.Base.Text.{Bytes}
use mcpglass.Json.{Serde}
use mcpglass.Policy.Libs.{Libs}
use mcpglass.Security.Decide.{Encode}
use mcpglass.Framing.Framed as Framed
use mcpglass.Framing.Framed.{Chunk}
use mcpglass.Framing.Framed.Lossless.{wire, wires, tail_bytes, push-finish-lossless}
use mcpglass.Tap.State.{RecordMode}
use mcpglass.Message.{s2c}
use mcpglass.Base.Int.{ℤ}
use mcpglass.Proxy.World.{Env, World, now, tap_frame}
use mcpglass.Proxy.World.Writes.{WritesSucceed, write_client_all, tap_frame_client}
use mcpglass.Proxy.Reads.{on_reads}
use mcpglass.Proxy.Reads.Follows.{Adds, images, on_reads_lem}
use mcpglass.Proxy.Faults.{Parsed, inject_decide, parse_for_injection}
use mcpglass.Proxy.ServerPump.{
  Relay, deliver_hit, tap_delivered, deliver, on_server_chunk, flush_client, pump_s2c,
}

images-wire : (cs : List Chunk) → images wire cs ≡ wires cs
images-wire [] = refl
images-wire (c ∷ cs) = rw (images-wire cs) refl

module _ (env : Env) (serde : Serde) (enc : Encode) (libs : Libs) (mode : RecordMode)
    (succeed : WritesSucceed env) where
  abbrev Quiet : Relay → Type 0
  Quiet r = r.injector ≡ none

  deliver_hit_whole :
      (frame : Bytes) (parsed : Parsed) (ts : ℤ) (w : World)
      → deliver_hit env serde enc libs mode none frame parsed ts w
        ≡ (true, record w { client = w.client ++ wire (Chunk.frame frame); step = w.step + 1 })
  unfolding deliver_hit
  deliver_hit_whole frame parsed ts w = write_client_all env succeed (frame ++ b'\n' ∷ []) w

  -- What is left of a frame's delivery when nothing is injected.
  deliver-Quiet :
      (frame : Bytes) (r : Relay)
      → Quiet r
      → let t = now env r.world in
        let w = record t.1 {
          client = t.1.client ++ wire (Chunk.frame frame);
          step = t.1.step + 1;
        } in
        deliver env serde enc libs mode frame r
        ≡ (true, record { injector = none; world = tap_frame env mode s2c t.0 frame w })
  unfolding deliver inject_decide tap_delivered
  deliver-Quiet frame r h =
      rw (h, inject_decide)
        (rw
          (deliver_hit_whole frame (parse_for_injection serde frame) (now env r.world).0
            (now env r.world).1)
          refl)

  on_server_chunk-Adds :
      (c : Chunk) (r : Relay)
      → Quiet r
      → Adds (on_server_chunk env serde enc libs mode) Quiet (λ r. r.world.client) wire c r
  unfolding on_server_chunk now
  on_server_chunk-Adds (Chunk.raw bytes) r h =
      let all = write_client_all env succeed bytes r.world in
      record { goes_on = ap (λ o. o.0) all; stays = h; adds = ap (λ o. o.1.client) all }
  on_server_chunk-Adds (Chunk.frame bytes) r h =
      let quiet = deliver-Quiet bytes r h in
      record {
        goes_on = ap (λ o. o.0) quiet;
        stays = ap (λ o. o.1.injector) quiet;
        adds = ap (λ o. o.1.world.client) quiet ∙ tap_frame_client env mode s2c _ bytes _;
      }

  flush_client_whole :
      (rest : Option Bytes) (w : World)
      → (flush_client env serde enc libs mode rest w).client ≡ w.client ++ tail_bytes rest
  unfolding flush_client
  flush_client_whole none w = sym (append-nil w.client)
  flush_client_whole (some rem) w = ap (λ o. o.1.client) (write_client_all env succeed rem w)

  -- With no fault injection configured and no write that fails, whatever the reads, the limit and
  -- what is recorded: the client is sent exactly the bytes that were read of the server, in order.
  pub pump_s2c-lossless :
      (max_line_bytes : ℕ) (reads : List Bytes) (w : World)
      → (pump_s2c env serde enc libs mode max_line_bytes reads none w).world.client
        ≡ w.client ++ concat reads
  unfolding pump_s2c
  pump_s2c-lossless max_line_bytes reads w =
      let start : Relay = record { injector = none; world = w } in
      let end =
        on_reads (on_server_chunk env serde enc libs mode) reads
          (Framed.new max_line_bytes, start) in
      let chunks = (run Framed.push (Framed.new max_line_bytes) reads).0 in
      let (ends, outs) =
        on_reads_lem (on_server_chunk env serde enc libs mode) Quiet (λ r. r.world.client) wire
          on_server_chunk-Adds reads (Framed.new max_line_bytes) start refl in
      flush_client_whole (Framed.finish end.0).0 end.1.world
      ∙ ap (λ x. x ++ tail_bytes (Framed.finish end.0).0) outs
      ∙ append_assoc w.client _ _
      ∙ ap (λ x. w.client ++ x)
          (ap (λ s. images wire chunks ++ tail_bytes (Framed.finish s).0) ends
            ∙ ap
                (λ x.
                  x
                  ++ tail_bytes
                      (Framed.finish (run Framed.push (Framed.new max_line_bytes) reads).1).0)
                (images-wire chunks)
            ∙ push-finish-lossless max_line_bytes reads)
