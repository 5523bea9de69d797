-- ===== src/Tests/Framing.antt =====
-- The three splitters on small streams.
use mcpglass.Base.{
  ℕ, List, [], ◌∷◌, ◌++◌, ◌≡◌, refl, ◌≤◌, ◌<◌, arith, run, some, none, map, concat, true, false,
}
use mcpglass.Base.Text.{Bytes, codes}
use mcpglass.Framing.Lines.{lines}
use mcpglass.Framing.Line
use mcpglass.Framing.Line.Chunks.{push-lines, open_at, cap_depends_on_reads}
use mcpglass.Framing.Framed
use mcpglass.Framing.Framed.{frame, raw, finish}
use mcpglass.Framing.Framed.Lossless.{wires, tail_bytes, push-finish-lossless}
use mcpglass.Framing.Framed.Agree.{frames, tap_of, pushes_agree}
use mcpglass.Framing.Sse
use mcpglass.Framing.Sse.{buffer_line_bytes}
use mcpglass.Framing.Sse.Chunks.{pushes-concat}
use mcpglass.Framing.Sse.Bounds.{pushes-IsBounded}
use mcpglass.Framing.Sse.Events.{Event, sent, payload_of, push-events}
use mcpglass.Framing.Sse.{strip_cr}

-- A frame across two reads, a short one, an over-long one and a tail without a newline.
abbrev reads : List Bytes
reads = codes "ab" ∷ codes "c\nd\nlonglong" ∷ codes "er\nx" ∷ []

recorded : (run Line.push (Line.new 6) reads).0 ≡ codes "abc" ∷ codes "d" ∷ []
unfolding Line.push Line.on_head Line.on_rest lines
recorded = refl

forwarded :
    (run Framed.push (Framed.new 6) reads).0
    ≡ frame (codes "abc") ∷ frame (codes "d") ∷ raw (codes "longlong") ∷ raw (codes "er\n") ∷ []
unfolding Framed.push Framed.on_head Framed.on_rest lines
forwarded = refl

events :
    (run Sse.push (Sse.new 64) (codes ": hi\r\ndata: a" ∷ codes "b\ndata:c\n\nid: 1\n\n" ∷ [])).0
    ≡ codes "ab\nc" ∷ []
unfolding Sse.push Sse.on_head Sse.end_line Sse.handle_line Sse.dispatch Sse.append_data
    Sse.field_of Sse.split_colon Sse.strip_space Sse.strip_cr Sse.buffer_line_bytes lines
    mcpglass.Base.Text.text_eq
events = refl

push-finish-lossless_example :
    wires (run Framed.push (Framed.new 6) reads).0
      ++ tail_bytes (finish (run Framed.push (Framed.new 6) reads).1).0
    ≡ concat reads
push-finish-lossless_example = push-finish-lossless 6 reads

pushes_agree_example : run Line.push (tap_of (Framed.new 6)) reads ≡ (
  frames (run Framed.push (Framed.new 6) reads).0,
  tap_of (run Framed.push (Framed.new 6) reads).1,
)
pushes_agree_example = pushes_agree (Framed.new 6) reads

push-lines_example :
    run Line.push (Line.new 10) reads
    ≡ ((lines (concat reads)).heads, open_at 10 (lines (concat reads)).rest)
unfolding lines
push-lines_example = push-lines 10 reads (omega arith)

cap_depends_on_reads_example :
    ((run Line.push (Line.new 3) ((codes "long" ++ b'\n' ∷ []) ∷ [])).0 ≡ codes "long" ∷ [])
    × ((run Line.push (Line.new 3) (codes "long" ∷ (b'\n' ∷ []) ∷ [])).0 ≡ [])
cap_depends_on_reads_example =
    cap_depends_on_reads 3 (codes "long") (refl, (refl, (refl, (refl, tt)))) (omega arith)

abbrev stream : List Bytes
stream = codes "data: a" ∷ codes "b\n\ndata" ∷ codes ": c\n\n" ∷ []

pushes-concat_example : run Sse.push (Sse.new 64) stream ≡ Sse.push (Sse.new 64) (concat stream)
unfolding Sse.buffer_line_bytes
pushes-concat_example = pushes-concat (Sse.new 64) stream refl

pushes-IsBounded_example : Sse.Bounds.IsBounded 8 (run Sse.push (Sse.new 8) stream).1
pushes-IsBounded_example =
    pushes-IsBounded (Sse.new 8) stream
      (record { cap_is = refl; line_within = omega arith; payload_within = omega arith })

abbrev two_events : List Event
two_events =
    record { first = codes "{}"; more = codes "x" ∷ [] } ∷ record { first = []; more = [] } ∷ []

push-events_example :
    Sse.push (Sse.new 64) (concat (map sent two_events)) ≡ (map payload_of two_events, Sse.new 64)
unfolding strip_cr
push-events_example = push-events 64 two_events (
    (
      record {
        first_plain = record { free = (refl, (refl, tt)); no_cr = refl; fits = omega arith };
        more_plain = (record { free = (refl, tt); no_cr = refl; fits = omega arith }, tt);
        payload_fits = omega arith;
      },
      (
        record {
          first_plain = record { free = tt; no_cr = refl; fits = omega arith };
          more_plain = tt;
          payload_fits = omega arith;
        },
        tt,
      ),
    ))
