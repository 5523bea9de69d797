-- ===== src/Framing/Framed.antt =====
-- `FramedStream` of crates/cli/src/security.rs: newline framing of a leg whose forwarding is
-- derived from the frames.
pub mod Lossless
pub mod Agree
use mcpglass.Base.{
  ℕ, List, [], ◌∷◌, ◌++◌, Bool, true, false, ◌||◌, ltb, if◌then◌else◌, length, run, Option, none,
  some,
}
use mcpglass.Base.Text.{Bytes}
use mcpglass.Framing.Lines.{lines}
use mcpglass.Framing.Line.{is_empty}

pub data Chunk : Type 0 where
  frame : Bytes → Chunk
  raw : Bytes → Chunk

pub record FramedStream : Type 0 where
  pub buf : Bytes
  pub max_line_bytes : ℕ
  pub overflowed : Bool

abbrev pub new : ℕ → FramedStream
new max_line_bytes = record { buf = []; max_line_bytes = max_line_bytes; overflowed = false }

-- One round of the `while let` loop, at the head that it found.
unfoldable pub on_head : FramedStream → Bytes → List Chunk × FramedStream
on_head s head =
    if s.overflowed
    then (raw (head ++ b'\n' ∷ []) ∷ [], record s { overflowed = false; buf = [] })
    else (frame (s.buf ++ head) ∷ [], record s { buf = [] })

-- Behind the loop: the remainder has no newline yet.
unfoldable pub on_rest : FramedStream → Bytes → List Chunk × FramedStream
on_rest s rest =
    if is_empty rest
    then ([], s)
    else if s.overflowed
    then (raw rest ∷ [], s)
    else if ltb s.max_line_bytes (length (s.buf ++ rest))
    then (raw (s.buf ++ rest) ∷ [], record s { buf = []; overflowed = true })
    else ([], record s { buf = s.buf ++ rest })

unfoldable pub push : FramedStream → Bytes → List Chunk × FramedStream
push s bytes =
    let split = lines bytes in
    let looped = run on_head s split.heads in
    let ended = on_rest looped.1 split.rest in (looped.0 ++ ended.0, ended.1)

-- At the end of the input: the buffered bytes, to be forwarded as they are.
unfoldable pub finish : FramedStream → Option Bytes × FramedStream
finish s = if s.overflowed || is_empty s.buf then (none, s) else (some s.buf, record s { buf = [] })
