-- ===== src/Framing/Lines.antt =====
-- The loop header that the three splitters share:
-- `while let Some(pos) = data.iter().position(|&b| b == b'\n')`, with `split_at(pos)` and
-- `data = &rest[1..]`. `lines` lists the heads that the rounds of that loop see, and what is left
-- of `data` behind it.
use mcpglass.Base.{
  ℕ, ◌≡◌, refl, List, [], ◌∷◌, ◌++◌, arith, ◌==◌, false, if◌then◌else◌, Bool-cases, inl, inr, sym,
  All, append-nil,
}
use mcpglass.Base.Text.{Bytes}

-- The heads in the order of the rounds, and the remainder.
pub record Split : Type 0 where
  pub heads : List Bytes
  pub rest : Bytes

-- A byte that is no newline belongs to the first head, or to the remainder if there is no head.
extend : ℕ → Split → Split
extend c s = elim s.heads [
  | [] ↦ record { heads = []; rest = c ∷ s.rest }
  | h ∷ hs ↦ record { heads = (c ∷ h) ∷ hs; rest = s.rest }
]

unfoldable pub lines : Bytes → Split
unfolding extend
lines [] = record { heads = []; rest = [] }
lines (c ∷ cs) =
    let s = lines cs in
    if c == b'\n' then record { heads = [] ∷ s.heads; rest = s.rest } else extend c s

-- The text of a split: each head with its newline, then the remainder.
abbrev pub join : List Bytes → Bytes → Bytes
join [] r = r
join (h ∷ hs) r = h ++ (b'\n' ∷ join hs r)

abbrev pub HasNoNewline : Bytes → Type 0
HasNoNewline = All (λ c. (c == b'\n') ≡ false)

extend-join :
    (c : ℕ) (s : Split) → join (extend c s).heads (extend c s).rest ≡ c ∷ join s.heads s.rest
unfolding extend
extend-join c s = ground arith

pub join-lines : (bytes : Bytes) → join (lines bytes).heads (lines bytes).rest ≡ bytes
unfolding lines
join-lines [] = refl
join-lines (c ∷ cs) = ground (arith, extend-join c (lines cs), join-lines cs)

-- What the loop sees of two chunks is what it sees of them one after the other, where the
-- remainder of the first stands in front of the first head of the second.
abbrev pub glue : Split → Split → Split
glue s t = elim t.heads [
  | [] ↦ record { heads = s.heads; rest = s.rest ++ t.rest }
  | h ∷ hs ↦ record { heads = s.heads ++ (s.rest ++ h) ∷ hs; rest = t.rest }
]

glue-extend : (c : ℕ) (s t : Split) → glue (extend c s) t ≡ extend c (glue s t)
unfolding extend
glue-extend c s t = ground arith

glue-newline :
    (s t : Split)
    → glue (record { heads = [] ∷ s.heads; rest = s.rest }) t
      ≡ record { heads = [] ∷ (glue s t).heads; rest = (glue s t).rest }
glue-newline s t = ground arith

pub lines-append : (a b : Bytes) → lines (a ++ b) ≡ glue (lines a) (lines b)
unfolding lines
lines-append [] b = ground arith
lines-append (c ∷ cs) b = elim (Bool-cases (c == b'\n')) [
  | inl e ↦ rw (e, lines-append cs b) (sym (glue-newline (lines cs) (lines b)))
  | inr e ↦ rw (e, lines-append cs b) (sym (glue-extend c (lines cs) (lines b)))
]

pub lines-HasNoNewline : (a : Bytes) → HasNoNewline a → lines a ≡ record { heads = []; rest = a }
unfolding lines extend
lines-HasNoNewline [] h = refl
lines-HasNoNewline (c ∷ cs) h = rw (h.0, lines-HasNoNewline cs h.1)

extend-HasNoNewline :
    (c : ℕ) (s : Split)
    → (c == b'\n') ≡ false
    → All HasNoNewline s.heads × HasNoNewline s.rest
    → All HasNoNewline (extend c s).heads × HasNoNewline (extend c s).rest
unfolding extend
extend-HasNoNewline c s e h = ground arith

-- Every head, and the remainder, is free of newlines: `position` finds the first one.
pub lines_free : (a : Bytes) → All HasNoNewline (lines a).heads × HasNoNewline (lines a).rest
unfolding lines
lines_free [] = (tt, tt)
lines_free (c ∷ cs) = elim (Bool-cases (c == b'\n')) [
  | inl e ↦ let ih = lines_free cs in rw e ((tt, ih.0), ih.1)
  | inr e ↦ rw e (extend-HasNoNewline c (lines cs) e (lines_free cs))
]

-- A newline-free text with its newline is one head.
pub lines_frame :
    (a : Bytes) → HasNoNewline a → lines (a ++ b'\n' ∷ []) ≡ record { heads = a ∷ []; rest = [] }
unfolding lines
lines_frame a h = rw (lines-append, lines-HasNoNewline a h, append-nil)

-- What is left of the first chunk acts as a first chunk of its own.
abbrev pub pending : Bytes → Split
pending r = record { heads = []; rest = r }

pub glue-pending :
    (s t : Split)
    → glue s t ≡ record {
      heads = s.heads ++ (glue (pending s.rest) t).heads;
      rest = (glue (pending s.rest) t).rest;
    }
glue-pending s t = ground (arith, append-nil s.heads)
