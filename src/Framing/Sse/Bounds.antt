-- ===== src/Framing/Sse/Bounds.antt =====
-- The memory guard of `SseSplitter`.
use mcpglass.Base.{ℕ, List, ◌≡◌, ◌≤◌, arith, length, run, run_inv, [], ◌∷◌, false}
use mcpglass.Base.Text.{Bytes}
use mcpglass.Framing.Lines.{lines}
use mcpglass.Framing.Sse.{
  SseSplitter, buffer_line_bytes, append_data, dispatch, handle_line, end_line, on_head, push,
  field_of, strip_cr,
}

-- The current line and the payload collected so far are both within the cap.
pub record IsBounded (limit : ℕ) (s : SseSplitter) : Type 0 where
  pub cap_is : s.max_event_bytes ≡ limit
  pub line_within : length s.line ≤ limit
  pub payload_within : length s.payload ≤ limit

module _ {limit : ℕ} where
  buffer-IsBounded :
      (s : SseSplitter) (a : Bytes) → IsBounded limit s → IsBounded limit (buffer_line_bytes s a)
  unfolding buffer_line_bytes
  buffer-IsBounded s a h = ground arith

  append_data-IsBounded :
      (s : SseSplitter) (v : Bytes) → IsBounded limit s → IsBounded limit (append_data s v)
  unfolding append_data
  append_data-IsBounded s v h = ground arith

  handle_line-IsBounded :
      (s : SseSplitter) (l : Bytes) → IsBounded limit s → IsBounded limit (handle_line s l).1
  unfolding handle_line dispatch
  handle_line-IsBounded s [] h = ground arith
  handle_line-IsBounded s (c ∷ cs) h =
      ground (arith, append_data-IsBounded s (field_of (c ∷ cs)).1 h)

  end_line-IsBounded : (s : SseSplitter) → IsBounded limit s → IsBounded limit (end_line s).1
  unfolding end_line
  end_line-IsBounded s h =
      ground (
        arith,
        handle_line-IsBounded (record s { line = []; line_dirty = false }) (strip_cr s.line),
      )

  on_head-IsBounded :
      (s : SseSplitter) (a : Bytes) → IsBounded limit s → IsBounded limit (on_head s a).1
  unfolding on_head
  on_head-IsBounded s a h = end_line-IsBounded _ (buffer-IsBounded s a h)

  push_once : (s : SseSplitter) (a : Bytes) → IsBounded limit s → IsBounded limit (push s a).1
  unfolding push
  push_once s a h =
      buffer-IsBounded _ (lines a).rest
        (run_inv (IsBounded limit) on_head on_head-IsBounded s (lines a).heads h)

-- Whatever is fed, one `push` after another, neither the current line nor the collected payload
-- exceeds the cap between two of them.
pub pushes-IsBounded :
    {limit : ℕ} (s : SseSplitter) (chunks : List Bytes)
    → IsBounded limit s
    → IsBounded limit (run push s chunks).1
pushes-IsBounded {limit} s chunks h = run_inv (IsBounded limit) push push_once s chunks h
