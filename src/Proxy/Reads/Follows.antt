-- ===== src/Proxy/Reads/Follows.antt =====
-- What a pump writes, if each chunk adds its own bytes to it.
use mcpglass.Base.{
  List, [], ◌∷◌, ◌++◌, append-nil, append_assoc, ◌≡◌, refl, sym, ap, ◌∙◌, Bool, true, run,
}
use mcpglass.Base.Text.{Bytes}
use mcpglass.Framing.Framed.{Chunk, FramedStream, push}
use mcpglass.Proxy.Reads.{on_chunks, on_reads}

-- What is written for the chunks, in order.
abbrev pub images : (Chunk → Bytes) → List Chunk → Bytes
images image [] = []
images image (c ∷ cs) = image c ++ images image cs

pub images-append :
    (image : Chunk → Bytes) (xs ys : List Chunk)
    → images image (xs ++ ys) ≡ images image xs ++ images image ys
images-append image [] ys = refl
images-append image (x ∷ xs) ys = simp (images-append image xs ys, append_assoc)

module _ {P : Type 0} (on_chunk : Chunk → P → Bool × P) (Good : P → Type 0) (out : P → Bytes)
    (image : Chunk → Bytes) where
  -- A chunk does not stop the pump, keeps its invariant, and adds its image to what was written.
  pub record Adds (c : Chunk) (p : P) : Type 0 where
    pub goes_on : (on_chunk c p).0 ≡ true
    pub stays : Good (on_chunk c p).1
    pub adds : out (on_chunk c p).1 ≡ out p ++ image c

  module _ (each : (c : Chunk) (p : P) → Good p → Adds c p) where
    abbrev Chunks : List Chunk → P → Bool × P → Type 0
    Chunks cs p o = (o.0 ≡ true) × Good o.1 × (out o.1 ≡ out p ++ images image cs)

    on_chunks_lem : (cs : List Chunk) (p : P) → Good p → Chunks cs p (on_chunks on_chunk cs p)
    unfolding on_chunks
    on_chunks_lem [] p h = (refl, h, sym (append-nil (out p)))
    on_chunks_lem (c ∷ cs) p h =
        let a = each c p h in
        let (go, good, outs) = on_chunks_lem cs (on_chunk c p).1 a.stays in
        rw (a.goes_on, on_chunks)
          (
            go,
            good,
            outs
                ∙ ap (λ x. x ++ images image cs) a.adds
                ∙ append_assoc (out p) (image c) (images image cs),
          )

    -- The pump reads to the end, with the splitter where the reads leave it, and has written the
    -- images of all chunks in order.
    pub on_reads_lem :
        (reads : List Bytes) (s : FramedStream) (p : P)
        → Good p
        → let o = on_reads on_chunk reads (s, p) in
          (o.0 ≡ (run push s reads).1) × (out o.1 ≡ out p ++ images image (run push s reads).0)
    unfolding on_reads
    on_reads_lem [] s p h = (refl, sym (append-nil (out p)))
    on_reads_lem (bytes ∷ reads) s p h =
        let (go, good, outs) = on_chunks_lem (push s bytes).0 p h in
        let (ends, rest) =
          on_reads_lem reads (push s bytes).1 (on_chunks on_chunk (push s bytes).0 p).1 good in
        rw (go, on_reads)
          (
            ends,
            rest
                ∙ ap (λ x. x ++ images image (run push (push s bytes).1 reads).0) outs
                ∙ append_assoc (out p) (images image (push s bytes).0)
                    (images image (run push (push s bytes).1 reads).0)
                ∙ ap (λ x. out p ++ x)
                    (sym
                      (images-append image (push s bytes).0 (run push (push s bytes).1 reads).0)),
          )
