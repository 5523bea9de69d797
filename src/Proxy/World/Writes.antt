-- ===== src/Proxy/World/Writes.antt =====
-- Writes that succeed, and what recording leaves alone.
use mcpglass.Base.{ℕ, ◌+◌, arith, none, ◌++◌, ◌≡◌, refl, true}
use mcpglass.Base.Text.{Bytes}
use mcpglass.Base.Int.{ℤ}
use mcpglass.Message.{Direction}
use mcpglass.Tap.State.{StorageMsg, RecordMode, full, metadata, off}
use mcpglass.Proxy.World.{Env, World, try_send, tap_frame, written, write_server, write_client}

-- No write fails.
abbrev pub WritesSucceed : Env → Type 0
WritesSucceed env = (n : ℕ) → env.fate n ≡ none

module _ (env : Env) where
  module _ (succeed : WritesSucceed env) where
    written_all : (n : ℕ) (bytes : Bytes) → written env n bytes ≡ (bytes, true)
    unfolding written
    written_all n bytes = rw (succeed n, written) refl

    pub write_client_all :
        (bytes : Bytes) (w : World)
        → write_client env bytes w
          ≡ (true, record w { client = w.client ++ bytes; step = w.step + 1 })
    unfolding write_client
    write_client_all bytes w = rw (written_all w.step bytes) refl

    pub write_server_all :
        (bytes : Bytes) (w : World)
        → write_server env bytes w
          ≡ (true, record w { server = w.server ++ bytes; step = w.step + 1 })
    unfolding write_server
    write_server_all bytes w = rw (written_all w.step bytes) refl

  -- Sending and recording write nothing.
  pub try_send_client : (msg : StorageMsg) (w : World) → (try_send env msg w).client ≡ w.client
  unfolding try_send
  try_send_client msg w = ground arith

  pub try_send_server : (msg : StorageMsg) (w : World) → (try_send env msg w).server ≡ w.server
  unfolding try_send
  try_send_server msg w = ground arith

  pub tap_frame_client :
      (mode : RecordMode) (dir : Direction) (ts : ℤ) (frame : Bytes) (w : World)
      → (tap_frame env mode dir ts frame w).client ≡ w.client
  unfolding tap_frame
  tap_frame_client off dir ts frame w = refl
  tap_frame_client full dir ts frame w = try_send_client _ w
  tap_frame_client metadata dir ts frame w = try_send_client _ w

  pub tap_frame_server :
      (mode : RecordMode) (dir : Direction) (ts : ℤ) (frame : Bytes) (w : World)
      → (tap_frame env mode dir ts frame w).server ≡ w.server
  unfolding tap_frame
  tap_frame_server off dir ts frame w = refl
  tap_frame_server full dir ts frame w = try_send_server _ w
  tap_frame_server metadata dir ts frame w = try_send_server _ w
