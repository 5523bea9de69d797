-- ===== src/Storage/Fingerprints/History.antt =====
-- The history of a tool: the search for a match in it, and the rows of the newest version.
use mcpglass.Base.{
  Option, none, some, List, [], ◌∷◌, ◌≡◌, refl, sym, ap, ◌∙◌, Bool, Bool-cases, true, false, ◌||◌,
  any, All, inl, inr, arith,
}
use mcpglass.Base.Text.{Text, text_eq}
use mcpglass.Base.Int.{ℤ, pos, negsuc}
use mcpglass.Policy.Fingerprint.{ToolFingerprints}
use mcpglass.Storage.Fingerprints.{
  Row, in_scope, same_key, precedes, insert_ordered, history_of, is_legacy, hash_for, matches,
  find_match,
}

-- A row of the newest fingerprint version.
abbrev pub IsCurrent : Row → Type 0
IsCurrent r = is_legacy r.fp_version ≡ false

abbrev pub has_fingerprint : Text → Row → Bool
has_fingerprint f r = text_eq r.fingerprint f

pub hash_for-IsCurrent :
    (fp : ToolFingerprints) (v : ℤ) → is_legacy v ≡ false → hash_for fp v ≡ fp.v3
unfolding hash_for is_legacy
hash_for-IsCurrent fp (pos n) h = ground arith
hash_for-IsCurrent fp (negsuc n) h = ground arith

pub matches-IsCurrent :
    (fp : ToolFingerprints) (r : Row) → IsCurrent r → matches fp r ≡ has_fingerprint fp.v3 r
unfolding matches
matches-IsCurrent fp r h = rw (hash_for-IsCurrent fp r.fp_version h)

-- The search for a match, and the test whether there is one.
unfoldable pub Searched : Text → List Row → Option Row → Type 0
Searched f rows none = any (has_fingerprint f) rows ≡ false
Searched f rows (some r) = IsCurrent r × (any (has_fingerprint f) rows ≡ true)

pub Searched-later :
    (f : Text) (r : Row) (rows : List Row) (o : Option Row)
    → has_fingerprint f r ≡ false
    → Searched f rows o
    → Searched f (r ∷ rows) o
unfolding Searched
Searched-later f r rows none n h = ground arith
Searched-later f r rows (some q) n h = (h.0, ground arith)

pub find_match-Searched :
    (fp : ToolFingerprints) (rows : List Row)
    → All IsCurrent rows
    → Searched fp.v3 rows (find_match fp rows)
unfolding Searched find_match
find_match-Searched fp [] h = refl
find_match-Searched fp (r ∷ rows) h = elim (Bool-cases (has_fingerprint fp.v3 r)) [
  | inl y ↦ rw (matches-IsCurrent fp r h.0) (rw y (h.0, ground arith))
  | inr n ↦
      rw (matches-IsCurrent fp r h.0) (
        rw n (Searched-later fp.v3 r rows (find_match fp rows) n (find_match-Searched fp rows h.1)))
]

-- The history of a scope has a fingerprint exactly when the table has that key.
any-insert_ordered :
    (f : Text) (r : Row) (rows : List Row)
    → any (has_fingerprint f) (insert_ordered r rows)
      ≡ (has_fingerprint f r || any (has_fingerprint f) rows)
unfolding insert_ordered
any-insert_ordered f r [] = refl
any-insert_ordered f r (q ∷ rows) = ground (arith, any-insert_ordered f r rows)

pub any-history_of :
    (server_key tool_name f : Text) (rows : List Row)
    → any (same_key server_key tool_name f) rows
      ≡ any (has_fingerprint f) (history_of server_key tool_name rows)
unfolding history_of same_key
any-history_of server_key tool_name f [] = refl
any-history_of server_key tool_name f (r ∷ rows) =
    elim (Bool-cases (in_scope server_key tool_name r)) [
      | inl y ↦ rw y (
          ap (λ b. has_fingerprint f r || b) (any-history_of server_key tool_name f rows)
          ∙ sym (any-insert_ordered f r (history_of server_key tool_name rows)))
      | inr n ↦ rw n (any-history_of server_key tool_name f rows)
    ]

insert_ordered-IsCurrent :
    (r : Row) (rows : List Row)
    → IsCurrent r
    → All IsCurrent rows
    → All IsCurrent (insert_ordered r rows)
unfolding insert_ordered
insert_ordered-IsCurrent r [] h hs = (h, hs)
insert_ordered-IsCurrent r (q ∷ rows) h hs = elim (Bool-cases (precedes r q)) [
  | inl y ↦ rw y (h, hs)
  | inr n ↦ rw n (hs.0, insert_ordered-IsCurrent r rows h hs.1)
]

pub history_of-IsCurrent :
    (server_key tool_name : Text) (rows : List Row)
    → All IsCurrent rows
    → All IsCurrent (history_of server_key tool_name rows)
unfolding history_of
history_of-IsCurrent server_key tool_name [] hs = hs
history_of-IsCurrent server_key tool_name (r ∷ rows) hs =
    elim (Bool-cases (in_scope server_key tool_name r)) [
      | inl y ↦
          rw y (
            insert_ordered-IsCurrent r _ hs.0 (history_of-IsCurrent server_key tool_name rows hs.1))
      | inr n ↦ rw n (history_of-IsCurrent server_key tool_name rows hs.1)
    ]
