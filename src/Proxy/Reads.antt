-- ===== src/Proxy/Reads.antt =====
-- The loop that both pumps of crates/cli/src/main.rs are: reads, and the chunks of each read.
use mcpglass.Base.{List, [], ◌∷◌, Bool, true, false}
use mcpglass.Base.Text.{Bytes}
use mcpglass.Framing.Framed as Framed
use mcpglass.Framing.Framed.{Chunk, FramedStream}
pub mod Follows
pub mod Maps

module _ {P : Type 0} (on_chunk : Chunk → P → Bool × P) where
  -- `break 'outer` at a failed write.
  unfoldable pub on_chunks : List Chunk → P → Bool × P
  on_chunks [] p = (true, p)
  on_chunks (c ∷ cs) p =
      let o = on_chunk c p in elim o.0 [ true ↦ on_chunks cs o.1 | false ↦ (false, o.1) ]

  -- The loop over the reads, up to the end of the input, a read error or a failed write.
  unfoldable pub on_reads : List Bytes → FramedStream × P → FramedStream × P
  on_reads [] (s, p) = (s, p)
  on_reads (bytes ∷ reads) (s, p) =
      let split = Framed.push s bytes in
      let o = on_chunks split.0 p in
      elim o.0 [ true ↦ on_reads reads (split.1, o.1) | false ↦ (split.1, o.1) ]
