-- ===== src/Framing/Line/Bounds.antt =====
-- The memory guard of `LineSplitter`.
use mcpglass.Base.{ℕ, List, [], ◌≡◌, ◌≤◌, true, arith, length, run, run_inv}
use mcpglass.Base.Text.{Bytes}
use mcpglass.Framing.Lines.{lines}
use mcpglass.Framing.Line.{LineSplitter, on_head, on_rest, push}

-- The buffer is within the cap, and empty inside an over-long frame.
pub record IsBounded (cap : ℕ) (s : LineSplitter) : Type 0 where
  pub cap_is : s.max_line_bytes ≡ cap
  pub within : length s.buf ≤ cap
  pub dropped : s.overflowed ≡ true → s.buf ≡ []

on_head-IsBounded :
    {cap : ℕ} (s : LineSplitter) (head : Bytes) → IsBounded cap s → IsBounded cap (on_head s head).1
unfolding on_head
on_head-IsBounded s head h = ground arith

on_rest-IsBounded :
    {cap : ℕ} (s : LineSplitter) (rest : Bytes) → IsBounded cap s → IsBounded cap (on_rest s rest)
unfolding on_rest
on_rest-IsBounded s rest h = ground arith

push_once :
    {cap : ℕ} (s : LineSplitter) (bytes : Bytes) → IsBounded cap s → IsBounded cap (push s bytes).1
unfolding push
push_once {cap} s bytes h =
    on_rest-IsBounded _ (lines bytes).rest
      (run_inv (IsBounded cap) on_head on_head-IsBounded s (lines bytes).heads h)

-- Whatever bytes are fed, one `push` after another, the buffer never exceeds the cap between two
-- of them, and it is empty while an over-long frame is skipped.
pub push-IsBounded :
    {cap : ℕ} (s : LineSplitter) (chunks : List Bytes)
    → IsBounded cap s
    → IsBounded cap (run push s chunks).1
push-IsBounded {cap} s chunks h = run_inv (IsBounded cap) push push_once s chunks h
