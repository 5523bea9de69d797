-- ===== src/Framing/Sse/Chunks.antt =====
-- Where the reads cut an event stream makes no difference to `SseSplitter`.
use mcpglass.Base.{
  List, [], ◌∷◌, ◌++◌, ◌≡◌, arith, run, run-append, append_assoc, append-nil, concat, sym,
  length-append,
}
use mcpglass.Base.Text.{Bytes}
use mcpglass.Framing.Lines.{Split, lines, lines-append, glue}
use mcpglass.Framing.Sse.{SseSplitter, buffer_line_bytes, on_head, push}

-- The cap is checked at every append, so two appends are one.
buffer-append :
    (s : SseSplitter) (a b : Bytes)
    → buffer_line_bytes s (a ++ b) ≡ buffer_line_bytes (buffer_line_bytes s a) b
unfolding buffer_line_bytes
buffer-append s a b = ground (arith, append_assoc s.line a b, length-append (s.line ++ a) b)

on_head-append :
    (s : SseSplitter) (a b : Bytes) → on_head s (a ++ b) ≡ on_head (buffer_line_bytes s a) b
unfolding on_head
on_head-append s a b = rw buffer-append

-- What `push` does with a split.
abbrev push_split : SseSplitter → Split → List Bytes × SseSplitter
push_split s t = ((run on_head s t.heads).0, buffer_line_bytes (run on_head s t.heads).1 t.rest)

push_glued :
    (s : SseSplitter) (t : Split) (hs : List Bytes) (r : Bytes)
    → push_split s (glue t (record { heads = hs; rest = r })) ≡ (
        let first = push_split s t in
        let second = push_split first.1 (record { heads = hs; rest = r }) in
        (first.0 ++ second.0, second.1))
push_glued s t [] r = rw (append-nil, buffer-append)
push_glued s t (h ∷ hs) r = rw (run-append, on_head-append)

-- In every state, two reads have the same outcome as one read of both: the same events in the same
-- order, and the same state behind them.
pub push-append :
    (s : SseSplitter) (a b : Bytes)
    → push s (a ++ b) ≡ ((push s a).0 ++ (push (push s a).1 b).0, (push (push s a).1 b).1)
unfolding push
push-append s a b = rw (lines-append a b) (push_glued s (lines a) (lines b).heads (lines b).rest)

-- Nothing is due: the current line is within the cap, or known not to be.
abbrev pub IsSettled : SseSplitter → Type 0
IsSettled s = buffer_line_bytes s [] ≡ s

push-IsSettled : (s : SseSplitter) (a : Bytes) → IsSettled (push s a).1
unfolding push
push-IsSettled s a = rw (← buffer-append) (rw append-nil)

-- However the reads cut a stream, the events are those of one read of the whole stream.
pub pushes-concat :
    (s : SseSplitter) (chunks : List Bytes)
    → IsSettled s
    → run push s chunks ≡ push s (concat chunks)
pushes-concat s [] h = unfold push lines in rw h
pushes-concat s (c ∷ cs) h =
    rw (pushes-concat (push s c).1 cs (push-IsSettled s c)) (sym (push-append s c (concat cs)))
