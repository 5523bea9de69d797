-- ===== src/Framing/Sse/Events.antt =====
-- A stream written by the SSE rules is read back: an event with the data lines `ds` is
-- `data: <line>` for each of them and a blank line.
use mcpglass.Base.{
  ℕ, List, [], ◌∷◌, ◌++◌, ◌≡◌, refl, ◌≤◌, ◌+◌, false, true, arith, length, All, map, append-nil,
  length-append, concat, ap, ◌∙◌,
}
use mcpglass.Base.Text.{Bytes, codes, text_eq}
use mcpglass.Framing.Lines.{lines, lines_frame, HasNoNewline}
use mcpglass.Framing.Sse.Chunks.{push-append}
use mcpglass.Framing.Sse.{
  SseSplitter, new, buffer_line_bytes, strip_cr, field_of, split_colon, strip_space, append_data,
  dispatch, handle_line, end_line, on_head, push,
}

abbrev field_line : Bytes → Bytes
field_line d = codes "data: " ++ d

-- What a server sends for an event with these data lines.
abbrev pub event_text : List Bytes → Bytes
event_text [] = b'\n' ∷ []
event_text (d ∷ ds) = (field_line d ++ b'\n' ∷ []) ++ event_text ds

-- The data lines joined by newlines, behind a payload that has begun.
abbrev pub joined : Bytes → List Bytes → Bytes
joined p [] = p
joined p (d ∷ ds) = joined ((p ++ b'\n' ∷ []) ++ d) ds

-- A data line that the rules carry unchanged, and that fits the cap with its field name.
pub record IsPlain (limit : ℕ) (d : Bytes) : Type 0 where
  pub free : HasNoNewline d
  pub no_cr : strip_cr d ≡ d
  pub fits : 6 + length d ≤ limit

line_free : (d : Bytes) → HasNoNewline d → HasNoNewline (field_line d)
line_free d h = (refl, (refl, (refl, (refl, (refl, (refl, h))))))

field-field_line : (d : Bytes) → field_of (field_line d) ≡ (codes "data", d)
unfolding field_of split_colon strip_space
field-field_line d = refl

strip_cr-field_line : (d : Bytes) → strip_cr d ≡ d → strip_cr (field_line d) ≡ field_line d
unfolding strip_cr
strip_cr-field_line [] h = refl
strip_cr-field_line (c ∷ cs) h = ap (λ x. codes "data: " ++ x) h

-- Between two lines of an event that is not skipped.
abbrev collecting : ℕ → Bytes → SseSplitter
collecting limit p = record {
  max_event_bytes = limit;
  line = [];
  payload = p;
  saw_data = true;
  overflow = false;
  line_dirty = false;
}

buffer_fits :
    (s : SseSplitter) (a : Bytes)
    → s.line ≡ []
    → s.line_dirty ≡ false
    → length a ≤ s.max_event_bytes
    → buffer_line_bytes s a ≡ record s { line = a }
unfolding buffer_line_bytes
buffer_fits s a h k f = ground arith

module _ (limit : ℕ) (d : Bytes) (plain : IsPlain limit d) where
  line_fits : length (field_line d) ≤ limit
  line_fits = omega (arith, plain.fits)

  first_line : length d ≤ limit → on_head (new limit) (field_line d) ≡ ([], collecting limit d)
  unfolding on_head end_line handle_line append_data text_eq
  first_line h =
      rw (buffer_fits (new limit) (field_line d) refl refl line_fits)
        (rw (strip_cr-field_line d plain.no_cr) (rw (field-field_line d) (ground arith)))

  next_line :
      (p : Bytes)
      → length ((p ++ b'\n' ∷ []) ++ d) ≤ limit
      → on_head (collecting limit p) (field_line d)
        ≡ ([], collecting limit ((p ++ b'\n' ∷ []) ++ d))
  unfolding on_head end_line handle_line append_data text_eq
  next_line p h =
      rw (buffer_fits (collecting limit p) (field_line d) refl refl line_fits)
        (rw (strip_cr-field_line d plain.no_cr) (rw (field-field_line d) (ground arith)))

-- One line with its newline, in one read.
push_line :
    (s : SseSplitter) (a : Bytes) (out : List Bytes) (t : SseSplitter)
    → HasNoNewline a
    → on_head s a ≡ (out, t)
    → t.line ≡ []
    → t.line_dirty ≡ false
    → push s (a ++ b'\n' ∷ []) ≡ (out, t)
unfolding push
push_line s a out t free e l k =
    rw (lines_frame a free, e, append-nil) (rw (buffer_fits t [] l k (omega arith)) (ground arith))

length-joined : (p : Bytes) (ds : List Bytes) → length p ≤ length (joined p ds)
length-joined p [] = omega arith
length-joined p (d ∷ ds) = omega (
  arith,
  length-joined ((p ++ b'\n' ∷ []) ++ d) ds,
  length-append (p ++ b'\n' ∷ []) d,
  length-append p (b'\n' ∷ []),
)

blank_line : (limit : ℕ) (p : Bytes) → push (collecting limit p) (b'\n' ∷ []) ≡ (p ∷ [], new limit)
blank_line limit p =
    push_line (collecting limit p) [] (p ∷ []) (new limit) tt
      (unfold on_head end_line handle_line dispatch strip_cr in
        rw (buffer_fits (collecting limit p) [] refl refl (omega arith)))
      refl refl

more_lines :
    (limit : ℕ) (p : Bytes) (ds : List Bytes)
    → All (IsPlain limit) ds
    → length (joined p ds) ≤ limit
    → push (collecting limit p) (event_text ds) ≡ (joined p ds ∷ [], new limit)
more_lines limit p [] plain fits = blank_line limit p
more_lines limit p (d ∷ ds) plain fits =
    let q = (p ++ b'\n' ∷ []) ++ d in
    let step =
      push_line (collecting limit p) (field_line d) [] (collecting limit q)
        (line_free d plain.0.free)
        (next_line limit d plain.0 p (omega (arith, fits, length-joined q ds))) refl refl in
    push-append (collecting limit p) (field_line d ++ b'\n' ∷ []) (event_text ds)
    ∙ rw (step, more_lines limit q ds plain.1 fits)

-- An event: its first data line and the others.
pub record Event : Type 0 where
  pub first : Bytes
  pub more : List Bytes

abbrev pub payload_of : Event → Bytes
payload_of e = joined e.first e.more

abbrev pub sent : Event → Bytes
sent e = event_text (e.first ∷ e.more)

pub record Carries (limit : ℕ) (e : Event) : Type 0 where
  pub first_plain : IsPlain limit e.first
  pub more_plain : All (IsPlain limit) e.more
  pub payload_fits : length (payload_of e) ≤ limit

push-sent :
    (limit : ℕ) (e : Event)
    → Carries limit e
    → push (new limit) (sent e) ≡ (payload_of e ∷ [], new limit)
push-sent limit e c =
    let start =
      push_line (new limit) (field_line e.first) [] (collecting limit e.first)
        (line_free e.first c.first_plain.free)
        (first_line limit e.first c.first_plain
          (omega (arith, c.payload_fits, length-joined e.first e.more)))
        refl refl in
    push-append (new limit) (field_line e.first ++ b'\n' ∷ []) (event_text e.more)
    ∙ rw (start, more_lines limit e.first e.more c.more_plain c.payload_fits)

-- A stream of events, each written as one `data: ` line per data line and a blank line, where no
-- data line has a newline or ends in a carriage return, and each line with its field name and each
-- payload fit the cap: the payloads that come out are those of the events, in order, where the lines
-- of one event are joined by newlines; and the splitter is as new behind it.
pub push-events :
    (limit : ℕ) (es : List Event)
    → All (Carries limit) es
    → push (new limit) (concat (map sent es)) ≡ (map payload_of es, new limit)
push-events limit [] h =
    unfold push lines in rw (buffer_fits (new limit) [] refl refl (omega arith))
push-events limit (e ∷ es) h =
    push-append (new limit) (sent e) (concat (map sent es))
    ∙ rw (push-sent limit e h.0, push-events limit es h.1)
