-- ===== src/Framing/Framed/Agree.antt =====
-- `FramedStream` decides and records exactly the frames that `LineSplitter` would record.
use mcpglass.Base.{List, [], ◌∷◌, ◌++◌, ◌≡◌, refl, arith, run, append-nil}
use mcpglass.Base.Text.{Bytes}
use mcpglass.Framing.Lines.{lines}
use mcpglass.Framing.Line
use mcpglass.Framing.Line.{LineSplitter}
use mcpglass.Framing.Framed
use mcpglass.Framing.Framed.{Chunk, frame, raw, FramedStream}

-- The frames among the chunks.
abbrev pub frames : List Chunk → List Bytes
frames [] = []
frames (frame f ∷ cs) = f ∷ frames cs
frames (raw _ ∷ cs) = frames cs

frames-append : (xs ys : List Chunk) → frames (xs ++ ys) ≡ frames xs ++ frames ys
frames-append [] ys = refl
frames-append (frame f ∷ xs) ys = rw (frames-append xs ys)
frames-append (raw _ ∷ xs) ys = frames-append xs ys

-- The splitter in the same state.
abbrev pub tap_of : FramedStream → LineSplitter
tap_of s = record { buf = s.buf; max_line_bytes = s.max_line_bytes; overflowed = s.overflowed }

on_head_agrees :
    (s : FramedStream) (h : Bytes)
    → Line.on_head (tap_of s) h ≡ (frames (Framed.on_head s h).0, tap_of (Framed.on_head s h).1)
unfolding Line.on_head Framed.on_head
on_head_agrees s h = ground arith

on_rest_agrees :
    (s : FramedStream) (r : Bytes)
    → (Line.on_rest (tap_of s) r ≡ tap_of (Framed.on_rest s r).1)
      × (frames (Framed.on_rest s r).0 ≡ [])
unfolding Line.on_rest Framed.on_rest
on_rest_agrees s r = ground arith

run_agrees :
    (s : FramedStream) (hs : List Bytes)
    → run Line.on_head (tap_of s) hs
      ≡ (frames (run Framed.on_head s hs).0, tap_of (run Framed.on_head s hs).1)
run_agrees s [] = refl
run_agrees s (h ∷ hs) = rw (on_head_agrees s h, frames-append, run_agrees (Framed.on_head s h).1 hs)

push_agrees :
    (s : FramedStream) (bytes : Bytes)
    → Line.push (tap_of s) bytes ≡ (frames (Framed.push s bytes).0, tap_of (Framed.push s bytes).1)
unfolding Line.push Framed.push
push_agrees s bytes =
    let ended = on_rest_agrees (run Framed.on_head s (lines bytes).heads).1 (lines bytes).rest in
    rw (run_agrees s (lines bytes).heads, ended.0, frames-append, ended.1, append-nil)

-- Fed the same reads from the same state, the splitter of the forwarding path and the one of the tap
-- path see the same frames in the same order, and stay in the same state.
pub pushes_agree :
    (s : FramedStream) (chunks : List Bytes)
    → run Line.push (tap_of s) chunks
      ≡ (frames (run Framed.push s chunks).0, tap_of (run Framed.push s chunks).1)
pushes_agree s [] = refl
pushes_agree s (c ∷ cs) = rw (push_agrees s c, frames-append, pushes_agree (Framed.push s c).1 cs)
