-- ===== src/Framing/Sse.antt =====
-- `SseSplitter` of crates/proxy-core/src/sse.rs: the payloads of a server-sent event stream.
-- The field that the source calls `data` is `payload` here.
pub mod Chunks
pub mod Bounds
pub mod Events
use mcpglass.Base.{
  ℕ, List, [], ◌∷◌, ◌++◌, Bool, true, false, not, ◌&&◌, ltb, ◌==◌, if◌then◌else◌, length, run,
  Option, none, some,
}
use mcpglass.Base.Text.{Bytes, codes, text_eq}
use mcpglass.Framing.Lines.{lines}

pub record SseSplitter : Type 0 where
  pub max_event_bytes : ℕ
  pub line : Bytes
  pub payload : Bytes
  pub saw_data : Bool
  pub overflow : Bool
  pub line_dirty : Bool

abbrev pub new : ℕ → SseSplitter
new max_event_bytes = record {
  max_event_bytes = max_event_bytes;
  line = [];
  payload = [];
  saw_data = false;
  overflow = false;
  line_dirty = false;
}

-- Append bytes to the current line, with the guard against an over-long one.
unfoldable pub buffer_line_bytes : SseSplitter → Bytes → SseSplitter
buffer_line_bytes s chunk =
    if s.line_dirty
    then s
    else if ltb s.max_event_bytes (length (s.line ++ chunk))
    then record s { overflow = true; line_dirty = true; line = [] }
    else record s { line = s.line ++ chunk }

-- Drop a single trailing `\r`.
unfoldable pub strip_cr : Bytes → Bytes
strip_cr [] = []
strip_cr (c ∷ []) = if c == b'\r' then [] else c ∷ []
strip_cr (c ∷ d ∷ cs) = c ∷ strip_cr (d ∷ cs)

-- `line.iter().position(|&b| b == b':')`: what stands before the first colon, and what behind it.
unfoldable pub split_colon : Bytes → Option (Bytes × Bytes)
split_colon [] = none
split_colon (c ∷ cs) =
    let rest = split_colon cs in
    if c == b':' then some ([], cs) else elim rest [ none ↦ none | some (f, v) ↦ some (c ∷ f, v) ]

-- One leading space after the colon is stripped.
unfoldable pub strip_space : Bytes → Bytes
strip_space [] = []
strip_space (c ∷ cs) = if c == b' ' then cs else c ∷ cs

-- Field and value of a line; a line with no colon is a field with an empty value.
unfoldable pub field_of : Bytes → Bytes × Bytes
field_of line = elim (split_colon line) [ none ↦ (line, []) | some (f, v) ↦ (f, strip_space v) ]

-- The effect of a `data` field, with the cap on the accumulated payload.
unfoldable pub append_data : SseSplitter → Bytes → SseSplitter
append_data s value =
    let joined = (if s.saw_data then s.payload ++ b'\n' ∷ [] else s.payload) ++ value in
    if ltb s.max_event_bytes (length joined)
    then record s { saw_data = true; overflow = true; payload = [] }
    else record s { saw_data = true; payload = joined }

-- The blank line: the payload of the event if there is one, and the reset for the next event.
unfoldable pub dispatch : SseSplitter → Option Bytes × SseSplitter
dispatch s = (
  if s.saw_data && not s.overflow then some s.payload else none,
  record s { payload = []; saw_data = false; overflow = false },
)

unfoldable pub handle_line : SseSplitter → Bytes → Option Bytes × SseSplitter
handle_line s [] = dispatch s
handle_line s (c ∷ cs) =
    if c == b':'
    then (none, s)
    else if text_eq (field_of (c ∷ cs)).0 (codes "data") && not s.overflow
    then (none, append_data s (field_of (c ∷ cs)).1)
    else (none, s)

abbrev pub to_list {ℓ} : {A : Type ℓ} → Option A → List A
to_list none = []
to_list (some a) = a ∷ []

-- The round of the loop behind `buffer_line_bytes(head)`: take the line and handle it.
unfoldable pub end_line : SseSplitter → List Bytes × SseSplitter
end_line s =
    if s.line_dirty
    then ([], record s { line = []; line_dirty = false })
    else (let handled =
          handle_line (record s { line = []; line_dirty = false }) (strip_cr s.line) in
        (to_list handled.0, handled.1))

-- One round of the `while let` loop, at the head that it found.
unfoldable pub on_head : SseSplitter → Bytes → List Bytes × SseSplitter
on_head s head = end_line (buffer_line_bytes s head)

unfoldable pub push : SseSplitter → Bytes → List Bytes × SseSplitter
push s bytes =
    let split = lines bytes in
    let looped = run on_head s split.heads in (looped.0, buffer_line_bytes looped.1 split.rest)
