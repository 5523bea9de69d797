-- ===== src/Proxy/World.antt =====
-- What the pumps of crates/cli/src/main.rs act on: the standard input of the server, the standard
-- output to the client, and the channel to the storage thread.
use mcpglass.Base.{
  ℕ, ◌+◌, Option, none, some, List, [], ◌∷◌, ◌++◌, Bool, true, false, take, if◌then◌else◌,
}
use mcpglass.Base.Text.{Bytes}
use mcpglass.Base.Int.{ℤ}
use mcpglass.Message.{Direction}
use mcpglass.Tap.State.{StorageMsg, tap, RecordMode, full, metadata, off}
pub mod Writes

-- How the outside answers, by the number of the interaction: the clock, the fate of a write (`some k`
-- is an error behind at most `k` bytes), and whether the channel is full or closed.
pub record Env : Type 0 where
  pub clock : ℕ → ℤ
  pub fate : ℕ → Option ℕ
  pub is_full : ℕ → Bool

pub record World : Type 0 where
  pub server : Bytes
  pub client : Bytes
  pub sent : List StorageMsg
  pub step : ℕ

module _ (env : Env) where
  -- `now_ms()`.
  unfoldable pub now : World → ℤ × World
  now w = (env.clock w.step, record w { step = w.step + 1 })

  -- `tx.try_send(msg)`; a message that finds no room is dropped.
  unfoldable pub try_send : StorageMsg → World → World
  try_send msg w =
      if env.is_full w.step
      then record w { step = w.step + 1 }
      else record w { sent = w.sent ++ msg ∷ []; step = w.step + 1 }

  -- The record of a frame, unless nothing is recorded.
  unfoldable pub tap_frame : RecordMode → Direction → ℤ → Bytes → World → World
  tap_frame off dir ts frame w = w
  tap_frame full dir ts frame w =
      try_send (tap (record { direction = dir; ts_ms = ts; raw = frame })) w
  tap_frame metadata dir ts frame w =
      try_send (tap (record { direction = dir; ts_ms = ts; raw = frame })) w

  -- The bytes of a write that get out, and whether all did.
  unfoldable pub written : ℕ → Bytes → Bytes × Bool
  written n bytes = elim (env.fate n) [ none ↦ (bytes, true) | some k ↦ (take k bytes, false) ]

  -- `write_all_flush(server, bytes)` and, with the newline behind the bytes, `forward_frame`.
  unfoldable pub write_server : Bytes → World → Bool × World
  write_server bytes w =
      let o = written w.step bytes in
      (o.1, record w { server = w.server ++ o.0; step = w.step + 1 })

  -- The same on the shared standard output, under its lock.
  unfoldable pub write_client : Bytes → World → Bool × World
  write_client bytes w =
      let o = written w.step bytes in
      (o.1, record w { client = w.client ++ o.0; step = w.step + 1 })
