-- ===== src/Proxy/ClientPump/Monitor.antt =====
-- In the mode `monitor` the client's bytes reach the server whole.
use mcpglass.Base.{none, List, [], ◌∷◌, ◌++◌, ◌≡◌, ◌≢◌, ◌⊎◌, inl, inr, refl, ap, ◌∙◌, run, concat}
use mcpglass.Base.Text.{Bytes}
use mcpglass.Base.Int.{pos}
use mcpglass.Json.{Serde}
use mcpglass.Policy.Libs.{Libs}
use mcpglass.Policy.Config.{monitor}
use mcpglass.Security.Decide.{
  Encode, FrameAction, forward_frame, block_with_response, block_silent, decide_c2s_frame,
}
use mcpglass.Security.Decide.FailOpen.{decide-withholds}
use mcpglass.Framing.Framed as Framed
use mcpglass.Framing.Framed.{Chunk}
use mcpglass.Framing.Framed.Lossless.{wire, wires, tail_bytes, push-finish-lossless}
use mcpglass.Proxy.World.{Env, World}
use mcpglass.Proxy.World.Writes.{WritesSucceed}
use mcpglass.Proxy.Reads.Follows.{images}
use mcpglass.Proxy.ClientPump.{Settings, pump_c2s}
use mcpglass.Proxy.ClientPump.Passes.{passed, passed_raw, passed_frame, pump_c2s-passed}

forwards_or_not : (a : FrameAction) → (a ≡ forward_frame) ⊎ (a ≢ forward_frame)
forwards_or_not forward_frame = inl refl
forwards_or_not (block_with_response resp) = inr (λ h. cc)
forwards_or_not block_silent = inr (λ h. cc)

module _ (env : Env) (succeed : WritesSucceed env) (serde : Serde) (enc : Encode) (libs : Libs)
    (settings : Settings) (monitors : settings.policy.mode ≡ monitor) where
  monitor_forwards :
      (frame : Bytes)
      → (decide_c2s_frame serde enc libs frame settings.policy (pos 0)).action ≡ forward_frame
  monitor_forwards frame =
      let o = decide_c2s_frame serde enc libs frame settings.policy (pos 0) in
      elim (forwards_or_not o.action) [
        | inl h ↦ h
        | inr h ↦
            let (v, _, blocks) =
              (decide-withholds serde enc libs frame settings.policy (pos 0)).0 h in
            cc (blocks.1, monitors)
      ]

  passed-wire : (c : Chunk) → passed serde enc libs settings c ≡ wire c
  passed-wire (Chunk.raw bytes) = ap (λ m. passed_raw m bytes) monitors
  passed-wire (Chunk.frame bytes) = ap (λ a. passed_frame a bytes) (monitor_forwards bytes)

  images-passed : (cs : List Chunk) → images (passed serde enc libs settings) cs ≡ wires cs
  images-passed [] = refl
  images-passed (c ∷ cs) = simp (passed-wire c, images-passed cs)

  -- In the mode `monitor`, with no fault injection configured and no write that fails, whatever the
  -- rest of the policy, the reads, the limit and what is recorded: the server is sent exactly the
  -- bytes that were read of the client, in order.
  pub pump_c2s-lossless :
      (reads : List Bytes) (w : World)
      → (pump_c2s env serde enc libs settings reads none w).world.server ≡ w.server ++ concat reads
  pump_c2s-lossless reads w =
      let cut = run Framed.push (Framed.new settings.max_line_bytes) reads in
      pump_c2s-passed env succeed serde enc libs settings reads w
      ∙ ap (λ x. w.server ++ (x ++ tail_bytes (Framed.finish cut.1).0)) (images-passed cut.0)
      ∙ ap (λ x. w.server ++ x) (push-finish-lossless settings.max_line_bytes reads)
