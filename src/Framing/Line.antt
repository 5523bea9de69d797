-- ===== src/Framing/Line.antt =====
-- `LineSplitter` of crates/proxy-core/src/lib.rs: the tap-side splitter of stdio frames.
pub mod Bounds
pub mod Chunks
use mcpglass.Base.{ℕ, List, [], ◌∷◌, ◌++◌, Bool, true, false, ◌||◌, ltb, if◌then◌else◌, length, run}
use mcpglass.Base.Text.{Bytes}
use mcpglass.Framing.Lines.{lines}

pub record LineSplitter : Type 0 where
  pub buf : Bytes
  pub max_line_bytes : ℕ
  pub overflowed : Bool

abbrev pub new : ℕ → LineSplitter
new max_line_bytes = record { buf = []; max_line_bytes = max_line_bytes; overflowed = false }

-- `<[T]>::is_empty`.
abbrev pub is_empty {ℓ} : {A : Type ℓ} → List A → Bool
is_empty [] = true
is_empty (_ ∷ _) = false

-- One round of the `while let` loop, at the head that it found.
unfoldable pub on_head : LineSplitter → Bytes → List Bytes × LineSplitter
on_head s head =
    if s.overflowed
    then ([], record s { overflowed = false; buf = [] })
    else ((s.buf ++ head) ∷ [], record s { buf = [] })

-- Behind the loop: the remainder has no newline yet.
unfoldable pub on_rest : LineSplitter → Bytes → LineSplitter
on_rest s rest =
    if s.overflowed || is_empty rest
    then s
    else if ltb s.max_line_bytes (length (s.buf ++ rest))
    then record s { overflowed = true; buf = [] }
    else record s { buf = s.buf ++ rest }

unfoldable pub push : LineSplitter → Bytes → List Bytes × LineSplitter
push s bytes =
    let split = lines bytes in
    let looped = run on_head s split.heads in (looped.0, on_rest looped.1 split.rest)
