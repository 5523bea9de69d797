-- ===== src/Framing/Line/Chunks.antt =====
-- What `LineSplitter` records of a stream, and how far that depends on where the reads cut it.
use mcpglass.Base.{
  ℕ, List, [], ◌∷◌, ◌++◌, ◌≡◌, refl, sym, ap, ◌∙◌, subst, ◌≤◌, ◌<◌, false, arith, length, run,
  concat, All, append-nil, append_assoc, length-append,
}
use mcpglass.Base.Text.{Bytes}
use mcpglass.Framing.Lines.{
  lines, lines-append, lines-HasNoNewline, lines_frame, lines_free, HasNoNewline, Split, glue,
  pending, glue-pending,
}
use mcpglass.Framing.Line.{LineSplitter, new, on_head, on_rest, push}

-- A state that is in no over-long frame.
abbrev pub open_at : ℕ → Bytes → LineSplitter
open_at limit buf = record { buf = buf; max_line_bytes = limit; overflowed = false }

-- The rounds of the loop, from a state in no over-long frame: what was buffered goes in front of
-- the first frame.
abbrev glued : Bytes → List Bytes → List Bytes
glued buf [] = []
glued buf (h ∷ hs) = (buf ++ h) ∷ hs

abbrev left : Bytes → List Bytes → Bytes
left buf [] = buf
left buf (h ∷ hs) = []

run_closed :
    (limit : ℕ) (hs : List Bytes) → run on_head (open_at limit []) hs ≡ (hs, open_at limit [])
unfolding on_head
run_closed limit [] = refl
run_closed limit (h ∷ hs) = rw (run_closed limit hs)

run-on_head :
    (limit : ℕ) (buf : Bytes) (hs : List Bytes)
    → run on_head (open_at limit buf) hs ≡ (glued buf hs, open_at limit (left buf hs))
unfolding on_head
run-on_head limit buf [] = refl
run-on_head limit buf (h ∷ hs) = rw (run_closed limit hs)

on_rest_fits :
    (limit : ℕ) (buf rest : Bytes)
    → length (buf ++ rest) ≤ limit
    → on_rest (open_at limit buf) rest ≡ open_at limit (buf ++ rest)
unfolding on_rest
on_rest_fits limit buf [] h = rw append-nil
on_rest_fits limit buf (c ∷ cs) h = ground arith

glue-buffered :
    (buf : Bytes) (t : Split)
    → glue (pending buf) t ≡ record { heads = glued buf t.heads; rest = left buf t.heads ++ t.rest }
glue-buffered buf t = ground arith

-- Every complete line, and what follows the last newline, is within the cap.
abbrev pub Fits : ℕ → Split → Type 0
Fits limit s = All (λ h. length h ≤ limit) s.heads × (length s.rest ≤ limit)

push_fits :
    (limit : ℕ) (buf bytes : Bytes)
    → HasNoNewline buf
    → length (lines (buf ++ bytes)).rest ≤ limit
    → push (open_at limit buf) bytes
      ≡ ((lines (buf ++ bytes)).heads, open_at limit (lines (buf ++ bytes)).rest)
unfolding push
push_fits limit buf bytes free fits =
    let parts =
      lines-append buf bytes
      ∙ ap (λ s. glue s (lines bytes)) (lines-HasNoNewline buf free)
      ∙ glue-buffered buf (lines bytes) in
    rw (run-on_head, parts) (rw (on_rest_fits limit _ _ (rw parts at fits)))

All-append {ℓ κ} :
    {A : Type ℓ} (P : A → Type κ) (xs ys : List A) → All P (xs ++ ys) → All P xs × All P ys
All-append P [] ys h = (tt, h)
All-append P (x ∷ xs) ys h = let ih = All-append P xs ys h.1 in ((h.0, ih.0), ih.1)

Fits-glue :
    (limit : ℕ) (hs : List Bytes) (r : Bytes) (gs : List Bytes) (r' : Bytes)
    → Fits limit (glue (record { heads = hs; rest = r }) (record { heads = gs; rest = r' }))
    → (length r ≤ limit) × Fits limit (glue (pending r) (record { heads = gs; rest = r' }))
Fits-glue limit hs r [] r' h = (omega (arith, h.1, length-append r r'), (tt, h.1))
Fits-glue limit hs r (g ∷ gs) r' h =
    let later = (All-append (λ x. length x ≤ limit) hs ((r ++ g) ∷ gs) h.0).1 in
    (omega (arith, later.0, length-append r g), (later, h.1))

run-Fits :
    (limit : ℕ) (buf : Bytes) (chunks : List Bytes)
    → HasNoNewline buf
    → Fits limit (lines (buf ++ concat chunks))
    → run push (open_at limit buf) chunks
      ≡ ((lines (buf ++ concat chunks)).heads, open_at limit (lines (buf ++ concat chunks)).rest)
run-Fits limit buf [] free fits = rw (append-nil, lines-HasNoNewline buf free)
run-Fits limit buf (c ∷ cs) free fits =
    let t = lines (buf ++ c) in
    let u = lines (concat cs) in
    let whole : lines (buf ++ (c ++ concat cs)) ≡ glue t u =
      ap lines (sym (append_assoc buf c (concat cs))) ∙ lines-append (buf ++ c) (concat cs) in
    let later : lines (t.rest ++ concat cs) ≡ glue (pending t.rest) u =
      lines-append t.rest (concat cs)
      ∙ ap (λ s. glue s u) (lines-HasNoNewline t.rest (lines_free (buf ++ c)).1) in
    let parts = Fits-glue limit t.heads t.rest u.heads u.rest (subst (Fits limit) whole fits) in
    let ih =
      run-Fits limit t.rest cs (lines_free (buf ++ c)).1 (subst (Fits limit) (sym later) parts.1) in
    rw (whole, glue-pending, ← later, push_fits limit buf c free parts.0, ih)

-- A stream in which no line exceeds the cap is recorded line by line, the same frames however the
-- reads cut it: they are its lines, and what follows the last newline stays buffered.
pub push-lines :
    (limit : ℕ) (chunks : List Bytes)
    → Fits limit (lines (concat chunks))
    → run push (new limit) chunks
      ≡ ((lines (concat chunks)).heads, open_at limit (lines (concat chunks)).rest)
push-lines limit chunks fits = run-Fits limit [] chunks tt fits

-- A complete frame is recorded whatever its length, if its newline comes with it in one read.
-- The same frame is dropped if it exceeds the cap and its newline comes in a later read.
pub cap_depends_on_reads :
    (limit : ℕ) (frame : Bytes)
    → HasNoNewline frame
    → limit < length frame
    → ((run push (new limit) ((frame ++ b'\n' ∷ []) ∷ [])).0 ≡ frame ∷ [])
      × ((run push (new limit) (frame ∷ (b'\n' ∷ []) ∷ [])).0 ≡ [])
unfolding push on_head on_rest lines
cap_depends_on_reads limit frame free long =
    (rw (lines_frame frame free), rw (lines-HasNoNewline frame free) (ground arith))
