-- ===== src/Replay/Quotes.antt =====
-- What a command that is written with quotes splits into.
use mcpglass.Base.{
  ℕ, none, some, List, [], ◌∷◌, ◌++◌, map, append-nil, append_assoc, ◌≡◌, refl, sym, ap, ◌∙◌, Bool,
  true, false, ◌||◌, ◌==◌, if◌then◌else◌, ==_iff, All, arith,
}
use mcpglass.Base.Text.{Text}
use mcpglass.Replay.{
  Split, quoted_char, close_token, plain_char, on_char, each_char, last_token, fresh, split_command,
}

-- An argument as a command line shows it: as it is, or between two quotes.
pub data Piece : Type 0 where
  bare : ℕ → Text → Piece
  quoted : ℕ → Text → Piece

abbrev pub argument : Piece → Text
argument (bare c t) = c ∷ t
argument (quoted q t) = t

abbrev pub written : Piece → Text
written (bare c t) = c ∷ t
written (quoted q t) = q ∷ t ++ q ∷ []

-- The arguments with a space between two.
abbrev pub command_line : List Piece → Text
command_line [] = []
command_line (p ∷ []) = written p
command_line (p ∷ r ∷ ps) = written p ++ b' ' ∷ command_line (r ∷ ps)

abbrev pub is_quote : ℕ → Bool
is_quote c = c == b'"' || c == b'\''

module _ (is_whitespace : ℕ → Bool) where
  abbrev pub IsBare : ℕ → Type 0
  IsBare c = (is_quote c ≡ false) × (is_whitespace c ≡ false)

  -- Bare code points are neither white space nor quotes, and quotes hold none of their kind.
  abbrev pub IsWritable : Piece → Type 0
  IsWritable (bare c t) = IsBare c × All IsBare t
  IsWritable (quoted q t) = (is_quote q ≡ true) × All (λ c. (c == q) ≡ false) t

  abbrev within : List Text → Text → Split
  within parts cur = record { parts = parts; cur = cur; in_token = true; quote = none }

  abbrev inside : List Text → Text → ℕ → Split
  inside parts cur q = record { parts = parts; cur = cur; in_token = true; quote = some q }

  on_char-bare :
      (parts : List Text) (cur : Text) (b : Bool) (c : ℕ)
      → IsBare c
      → on_char is_whitespace record { parts = parts; cur = cur; in_token = b; quote = none } c
        ≡ within parts (cur ++ c ∷ [])
  unfolding on_char plain_char
  on_char-bare parts cur b c (q, w) = ground (arith, q, w)

  on_char-inside :
      (parts : List Text) (cur : Text) (q c : ℕ)
      → on_char is_whitespace (inside parts cur q) c
        ≡ (if c == q then within parts cur else inside parts (cur ++ c ∷ []) q)
  unfolding on_char quoted_char
  on_char-inside parts cur q c = refl

  on_char-quote :
      (parts : List Text) (q : ℕ)
      → is_quote q ≡ true
      → on_char is_whitespace (fresh is_whitespace parts) q ≡ inside parts [] q
  unfolding on_char plain_char
  on_char-quote parts q e = ground (arith, e)

  each_char-bare :
      (parts : List Text) (cur t r : Text)
      → All IsBare t
      → each_char is_whitespace (within parts cur) (t ++ r)
        ≡ each_char is_whitespace (within parts (cur ++ t)) r
  unfolding each_char
  each_char-bare parts cur [] r h = rw (append-nil cur) refl
  each_char-bare parts cur (c ∷ t) r (b, h) =
      ap (λ s. each_char is_whitespace s (t ++ r)) (on_char-bare parts cur true c b)
      ∙ each_char-bare parts (cur ++ c ∷ []) t r h
      ∙ ap (λ x. each_char is_whitespace (within parts x) r) (append_assoc cur (c ∷ []) t)

  each_char-quoted :
      (parts : List Text) (cur t r : Text) (q : ℕ)
      → All (λ c. (c == q) ≡ false) t
      → each_char is_whitespace (inside parts cur q) (t ++ q ∷ r)
        ≡ each_char is_whitespace (within parts (cur ++ t)) r
  unfolding each_char
  each_char-quoted parts cur [] r q h =
      ap (λ s. each_char is_whitespace s r)
        (on_char-inside parts cur q q
          ∙ ap (λ b. if b then within parts cur else inside parts (cur ++ q ∷ []) q)
              ((==_iff q q).1 refl)
          ∙ ap (within parts) (sym (append-nil cur)))
  each_char-quoted parts cur (c ∷ t) r q (e, h) =
      ap (λ s. each_char is_whitespace s (t ++ q ∷ r))
        (on_char-inside parts cur q c
          ∙ ap (λ b. if b then within parts cur else inside parts (cur ++ c ∷ []) q) e)
      ∙ each_char-quoted parts (cur ++ c ∷ []) t r q h
      ∙ ap (λ x. each_char is_whitespace (within parts x) r) (append_assoc cur (c ∷ []) t)

  each_char-written :
      (parts : List Text) (p : Piece) (r : Text)
      → IsWritable p
      → each_char is_whitespace (fresh is_whitespace parts) (written p ++ r)
        ≡ each_char is_whitespace (within parts (argument p)) r
  unfolding each_char
  each_char-written parts (bare c t) r (b, h) =
      ap (λ s. each_char is_whitespace s (t ++ r)) (on_char-bare parts [] false c b)
      ∙ each_char-bare parts (c ∷ []) t r h
  each_char-written parts (quoted q t) r (e, h) =
      ap (each_char is_whitespace (fresh is_whitespace parts))
        (ap (λ x. q ∷ x) (append_assoc t (q ∷ []) r))
      ∙ ap (λ s. each_char is_whitespace s (t ++ q ∷ r)) (on_char-quote parts q e)
      ∙ each_char-quoted parts [] t r q h

  each_char-space :
      (parts : List Text) (cur r : Text)
      → is_whitespace b' ' ≡ true
      → each_char is_whitespace (within parts cur) (b' ' ∷ r)
        ≡ each_char is_whitespace (fresh is_whitespace (parts ++ cur ∷ [])) r
  unfolding each_char on_char plain_char close_token
  each_char-space parts cur r w = rw w refl

  each_char-command_line :
      (parts : List Text) (ps : List Piece)
      → is_whitespace b' ' ≡ true
      → All IsWritable ps
      → last_token is_whitespace
          (each_char is_whitespace (fresh is_whitespace parts) (command_line ps))
        ≡ parts ++ map argument ps
  unfolding each_char last_token
  each_char-command_line parts [] w h = sym (append-nil parts)
  each_char-command_line parts (p ∷ []) w (h, _) =
      ap (λ x. last_token is_whitespace (each_char is_whitespace (fresh is_whitespace parts) x))
        (sym (append-nil (written p)))
      ∙ ap (last_token is_whitespace) (each_char-written parts p [] h)
  each_char-command_line parts (p ∷ r ∷ ps) w (h, hs) =
      ap (last_token is_whitespace) (
        each_char-written parts p (b' ' ∷ command_line (r ∷ ps)) h
        ∙ each_char-space parts (argument p) (command_line (r ∷ ps)) w)
      ∙ each_char-command_line (parts ++ argument p ∷ []) (r ∷ ps) w hs
      ∙ append_assoc parts (argument p ∷ []) (map argument (r ∷ ps))

  -- Arguments that are written on one line with a space between two, each bare or between two
  -- quotes of one kind, are split into the same arguments, the empty ones between quotes too. Bare
  -- arguments have a code point, and neither white space nor quotes; those between quotes have no
  -- quote of that kind. The space counts as white space.
  pub split_command-command_line :
      (ps : List Piece)
      → is_whitespace b' ' ≡ true
      → All IsWritable ps
      → split_command is_whitespace (command_line ps) ≡ map argument ps
  unfolding split_command
  split_command-command_line ps w h = each_char-command_line [] ps w h
