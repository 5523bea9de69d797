-- ===== src/Framing/Framed/Lossless.antt =====
-- No byte of the leg is lost, invented or reordered by `FramedStream`.
use mcpglass.Base.{
  ℕ, List, [], ◌∷◌, ◌++◌, ◌≡◌, refl, sym, ap, ◌∙◌, ◌≤◌, true, arith, run, run_inv, Option, none,
  some, concat, append-nil, append_assoc, length,
}
use mcpglass.Base.Text.{Bytes}
use mcpglass.Framing.Lines.{lines, join, join-lines}
use mcpglass.Framing.Framed.{Chunk, frame, raw, FramedStream, new, on_head, on_rest, push, finish}

-- The bytes that a caller forwards for a chunk: a frame gets its newline back.
abbrev pub wire : Chunk → Bytes
wire (frame f) = f ++ b'\n' ∷ []
wire (raw r) = r

abbrev pub wires : List Chunk → Bytes
wires [] = []
wires (c ∷ cs) = wire c ++ wires cs

wires-append : (xs ys : List Chunk) → wires (xs ++ ys) ≡ wires xs ++ wires ys
wires-append [] ys = refl
wires-append (x ∷ xs) ys = simp (wires-append xs ys, append_assoc)

wires_step : (xs ys : List Chunk) (z : Bytes) → wires xs ++ (wires ys ++ z) ≡ wires (xs ++ ys) ++ z
wires_step xs ys z = simp (wires-append, append_assoc)

-- The buffer is within the cap, and empty inside an over-long frame, whose bytes went out raw.
pub record IsSound (cap : ℕ) (s : FramedStream) : Type 0 where
  pub cap_is : s.max_line_bytes ≡ cap
  pub within : length s.buf ≤ cap
  pub flushed : s.overflowed ≡ true → s.buf ≡ []

regroup : (a g r : Bytes) → a ++ (g ++ (b'\n' ∷ r)) ≡ (a ++ (g ++ b'\n' ∷ [])) ++ r
regroup a g r = simp append_assoc

module _ {limit : ℕ} where
  on_head-IsSound :
      (s : FramedStream) (head : Bytes) → IsSound limit s → IsSound limit (on_head s head).1
  unfolding on_head
  on_head-IsSound s head h = ground arith

  on_rest-IsSound :
      (s : FramedStream) (rest : Bytes) → IsSound limit s → IsSound limit (on_rest s rest).1
  unfolding on_rest
  on_rest-IsSound s rest h = ground arith

  pub push-IsSound :
      (s : FramedStream) (bytes : Bytes) → IsSound limit s → IsSound limit (push s bytes).1
  unfolding push
  push-IsSound s bytes h =
      on_rest-IsSound _ (lines bytes).rest
        (run_inv (IsSound limit) on_head on_head-IsSound s (lines bytes).heads h)

  -- What was buffered and what comes in is what goes out and what is buffered then.
  on_head_whole :
      (s : FramedStream) (head : Bytes)
      → IsSound limit s
      → s.buf ++ (head ++ b'\n' ∷ []) ≡ wires (on_head s head).0 ++ (on_head s head).1.buf
  unfolding on_head
  on_head_whole s head h = ground (
    arith,
    append-nil (head ++ b'\n' ∷ []),
    append-nil ((s.buf ++ head) ++ b'\n' ∷ []),
    append_assoc s.buf head (b'\n' ∷ []),
  )

  on_rest_whole :
      (s : FramedStream) (rest : Bytes)
      → IsSound limit s
      → s.buf ++ rest ≡ wires (on_rest s rest).0 ++ (on_rest s rest).1.buf
  unfolding on_rest
  on_rest_whole s [] h = rw append-nil
  on_rest_whole s (c ∷ cs) h = ground (arith, append-nil (c ∷ cs), append-nil (s.buf ++ c ∷ cs))

  heads_whole :
      (s : FramedStream) (hs : List Bytes) (r : Bytes)
      → IsSound limit s
      → s.buf ++ join hs r ≡ wires (run on_head s hs).0 ++ ((run on_head s hs).1.buf ++ r)
  heads_whole s [] r h = refl
  heads_whole s (g ∷ gs) r h =
      let next = heads_whole (on_head s g).1 gs r (on_head-IsSound s g h) in
      regroup s.buf g (join gs r)
      ∙ ap (λ x. x ++ join gs r) (on_head_whole s g h)
      ∙ append_assoc (wires (on_head s g).0) _ _
      ∙ ap (λ x. wires (on_head s g).0 ++ x) next
      ∙ wires_step (on_head s g).0 (run on_head (on_head s g).1 gs).0 _

  push_whole :
      (s : FramedStream) (bytes : Bytes)
      → IsSound limit s
      → s.buf ++ bytes ≡ wires (push s bytes).0 ++ (push s bytes).1.buf
  unfolding push
  push_whole s bytes h =
      let mid = (run on_head s (lines bytes).heads).1 in
      let sound = run_inv (IsSound limit) on_head on_head-IsSound s (lines bytes).heads h in
      ap (λ x. s.buf ++ x) (sym (join-lines bytes))
      ∙ heads_whole s (lines bytes).heads (lines bytes).rest h
      ∙ ap (λ x. wires (run on_head s (lines bytes).heads).0 ++ x)
          (on_rest_whole mid (lines bytes).rest sound)
      ∙ wires_step (run on_head s (lines bytes).heads).0 (on_rest mid (lines bytes).rest).0 _

  pushes_whole :
      (s : FramedStream) (chunks : List Bytes)
      → IsSound limit s
      → s.buf ++ concat chunks ≡ wires (run push s chunks).0 ++ (run push s chunks).1.buf
  pushes_whole s [] h = append-nil s.buf
  pushes_whole s (c ∷ cs) h =
      sym (append_assoc s.buf c (concat cs))
      ∙ ap (λ x. x ++ concat cs) (push_whole s c h)
      ∙ append_assoc (wires (push s c).0) _ _
      ∙ ap (λ x. wires (push s c).0 ++ x) (pushes_whole (push s c).1 cs (push-IsSound s c h))
      ∙ wires_step (push s c).0 (run push (push s c).1 cs).0 _

-- The bytes that `finish` hands back.
abbrev pub tail_bytes : Option Bytes → Bytes
tail_bytes none = []
tail_bytes (some b) = b

finish_whole : {limit : ℕ} (s : FramedStream) → IsSound limit s → tail_bytes (finish s).0 ≡ s.buf
unfolding finish
finish_whole s h = ground arith

-- From a new stream, whatever the reads: the chunks that come out, each frame with its newline and
-- each raw chunk as it is, and then what `finish` returns at the end of the input, are together
-- exactly the bytes that went in.
pub push-finish-lossless :
    (limit : ℕ) (chunks : List Bytes)
    → wires (run push (new limit) chunks).0 ++ tail_bytes (finish (run push (new limit) chunks).1).0
      ≡ concat chunks
push-finish-lossless limit chunks =
    let begin : IsSound limit (new limit) = record {
      cap_is = refl;
      within = omega arith;
      flushed = λ _. refl;
    } in
    let s = (run push (new limit) chunks).1 in
    ap (λ x. wires (run push (new limit) chunks).0 ++ x)
      (finish_whole s (run_inv (IsSound limit) push push-IsSound (new limit) chunks begin))
    ∙ sym (pushes_whole (new limit) chunks begin)
