-- ===== src/Proxy/Reads/Maps.antt =====
-- Two pumps of which one is the image of the other.
use mcpglass.Base.{List, [], ◌∷◌, ◌≡◌, refl, ap, ◌∙◌, Bool, true, false}
use mcpglass.Base.Text.{Bytes}
use mcpglass.Framing.Framed.{Chunk, FramedStream, push}
use mcpglass.Proxy.Reads.{on_chunks, on_reads}

-- The second part of a result, mapped.
abbrev pub over : {A P : Type 0} → (P → P) → A × P → A × P
over f o = (o.0, f o.1)

module _ {P : Type 0} (left right : Chunk → P → Bool × P) (f : P → P)
    (each : (c : Chunk) (p : P) → left c (f p) ≡ over f (right c p)) where
  -- A step behind `on_chunk`, or behind the chunks of a read, by its outcome.
  step_over :
      {A : Type 0}
      → (go_left go_right : P → A × P) (stop : A) → ((p : P) → go_left (f p) ≡ over f (go_right p))
      → (o : Bool × P)
      → elim o.0 as (λ _. A × P) [ true ↦ go_left (f o.1) | false ↦ (stop, f o.1) ]
        ≡ over f (elim o.0 as (λ _. A × P) [ true ↦ go_right o.1 | false ↦ (stop, o.1) ])
  step_over go_left go_right stop h (true, p) = h p
  step_over go_left go_right stop h (false, p) = refl

  pub on_chunks-over :
      (cs : List Chunk) (p : P) → on_chunks left cs (f p) ≡ over f (on_chunks right cs p)
  unfolding on_chunks
  on_chunks-over [] p = refl
  on_chunks-over (c ∷ cs) p =
      ap (λ o. elim o.0 as (λ _. Bool × P) [ true ↦ on_chunks left cs o.1 | false ↦ (false, o.1) ])
        (each c p)
      ∙ step_over (on_chunks left cs) (on_chunks right cs) false (on_chunks-over cs) (right c p)

  pub on_reads-over :
      (reads : List Bytes) (s : FramedStream) (p : P)
      → on_reads left reads (s, f p) ≡ over f (on_reads right reads (s, p))
  unfolding on_reads
  on_reads-over [] s p = refl
  on_reads-over (bytes ∷ reads) s p =
      let t = (push s bytes).1 in
      ap
        (λ o. elim o.0 as (λ _. FramedStream × P) [
          | true ↦ on_reads left reads (t, o.1)
          | false ↦ (t, o.1)
        ])
        (on_chunks-over (push s bytes).0 p)
      ∙ step_over (λ q. on_reads left reads (t, q)) (λ q. on_reads right reads (t, q)) t
          (on_reads-over reads t) (on_chunks right (push s bytes).0 p)
