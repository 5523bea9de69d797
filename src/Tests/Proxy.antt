-- ===== src/Tests/Proxy.antt =====
-- A session through the two pumps.
use mcpglass.Base.{none, List, [], ◌∷◌, ◌++◌, ◌≡◌, refl, run, concat, leb}
use mcpglass.Base.Text.{Bytes, codes}
use mcpglass.Base.Int.{pos}
use mcpglass.Policy.Config.{monitor}
use mcpglass.Framing.Framed as Framed
use mcpglass.Framing.Framed.Lossless.{tail_bytes}
use mcpglass.Tap.State.{full}
use mcpglass.Proxy.World.{Env, World}
use mcpglass.Proxy.Reads.Follows.{images}
use mcpglass.Proxy.Recording.{deaf, unsent}
use mcpglass.Proxy.ClientPump.{Settings, pump_c2s}
use mcpglass.Proxy.ClientPump.Passes.{passed, pump_c2s-passed}
use mcpglass.Proxy.ClientPump.Monitor.{pump_c2s-lossless}
use mcpglass.Proxy.ClientPump.Recording.{pump_unsent, pump_c2s-unsent}
use mcpglass.Proxy.ServerPump.{pump_s2c}
use mcpglass.Proxy.ServerPump.Whole.{pump_s2c-lossless}
use mcpglass.Tests.Sample.{call_line, serde, encode, libs, policy}

-- Every write succeeds, and the channel has no room for every other message.
abbrev env : Env
env = record { clock = λ n. pos n; fate = λ n. none; is_full = λ n. leb 3 n }

abbrev world : World
world = record { server = []; client = []; sent = []; step = 0 }

-- A call that the policy blocks, a line that is no JSON, and the head of a third line.
abbrev reads : List Bytes
reads = (call_line ++ b'\n' ∷ codes "no") ∷ (b'\n' ∷ codes "js") ∷ []

abbrev settings : Settings
settings = record { policy = policy; max_line_bytes = 16; mode = full }

abbrev watching : Settings
watching = record settings { policy = record policy { mode = monitor } }

pump_s2c-lossless_example :
    (pump_s2c env serde encode libs full 16 reads none world).world.client ≡ [] ++ concat reads
pump_s2c-lossless_example = pump_s2c-lossless env serde encode libs full (λ n. refl) 16 reads world

pump_c2s-passed_example :
    (pump_c2s env serde encode libs settings reads none world).world.server
    ≡ []
      ++ (images (passed serde encode libs settings) (run Framed.push (Framed.new 16) reads).0
          ++ tail_bytes (Framed.finish (run Framed.push (Framed.new 16) reads).1).0)
pump_c2s-passed_example = pump_c2s-passed env (λ n. refl) serde encode libs settings reads world

pump_c2s-lossless_example :
    (pump_c2s env serde encode libs watching reads none world).world.server ≡ [] ++ concat reads
pump_c2s-lossless_example =
    pump_c2s-lossless env (λ n. refl) serde encode libs watching refl reads world

pump_c2s-unsent_example :
    pump_c2s (deaf env) serde encode libs settings reads none (unsent world)
    ≡ pump_unsent (pump_c2s env serde encode libs settings reads none world)
pump_c2s-unsent_example = pump_c2s-unsent env serde encode libs settings reads none world
