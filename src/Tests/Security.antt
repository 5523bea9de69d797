-- ===== src/Tests/Security.antt =====
-- Frames through `parse_line` and `decide_c2s_frame`.
use mcpglass.Base.{◌≢◌, ◌↔◌, All}
use mcpglass.Base.Int.{pos}
use mcpglass.Json.{Value}
use mcpglass.Message.Parse.{Reads}
use mcpglass.Security.Decide.{forward_frame, decide_c2s_frame}
use mcpglass.Security.Decide.FailOpen.{Blocks, Matches, decide-withholds, decide-events}
use mcpglass.Tests.Sample.{call_line, serde, encode, libs, policy}

decide-withholds_example :
    ((decide_c2s_frame serde encode libs call_line policy (pos 5)).action ≢ forward_frame)
    ↔ ((v : Value) × Reads serde call_line v × Blocks libs policy v)
decide-withholds_example = decide-withholds serde encode libs call_line policy (pos 5)

decide-events_example :
    All
      (Matches serde encode libs call_line policy (pos 5))
      (decide_c2s_frame serde encode libs call_line policy (pos 5)).events
decide-events_example = decide-events serde encode libs call_line policy (pos 5)
