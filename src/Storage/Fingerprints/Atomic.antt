-- ===== src/Storage/Fingerprints/Atomic.antt =====
-- The transaction around `record_fingerprint`.
use mcpglass.Base.{
  ℕ, Option, none, some, List, [], ◌∷◌, ◌≡◌, refl, ◌∙◌, Bool, Bool-cases, true, false,
  if◌then◌else◌, ◌⊎◌, inl, inr, arith,
}
use mcpglass.Base.Text.{Text, text_eq}
use mcpglass.Base.Int.{ℤ}
use mcpglass.Policy.Fingerprint.{ToolFingerprints}
use mcpglass.Storage.Sql.{
  done, Conn, Sql, pure, followed, ◌>>=◌, ◌>>◌, statement, begin, commit, rollback, spent,
  next_fault,
}
use mcpglass.Storage.Fingerprints.{
  FingerprintOutcome, new, unchanged, changed, reverted, classify_older, rekey, or_legacy, Row,
  Table, fingerprint_history, insert_fingerprint, touch_fingerprint, matches, find_match,
  classify_fingerprint, move_rows, scoped_history, record_fingerprint_txn, finish_commit, settle,
  record_fingerprint,
}

-- An operation that neither opens nor closes a transaction.
abbrev StaysInside : {T A : Type 0} → Sql T A → Type 0
StaysInside {T} m = (c : Conn T) → (m c).1.saved ≡ c.saved

statement-StaysInside : {T A : Type 0} (f : T → Option (A × T)) → StaysInside (statement f)
unfolding statement
statement-StaysInside f c = ground arith

followed-StaysInside :
    {T A B : Type 0} (f : A → Sql T B) (r : Option A × Conn T)
    → ((a : A) → StaysInside (f a))
    → (followed f r).1.saved ≡ r.1.saved
followed-StaysInside f (none, c) inside = refl
followed-StaysInside f (some a, c) inside = inside a c

bind-StaysInside :
    {T A B : Type 0} (m : Sql T A) (f : A → Sql T B)
    → StaysInside m
    → ((a : A) → StaysInside (f a))
    → StaysInside (m >>= f)
bind-StaysInside m f first later c = followed-StaysInside f (m c) later ∙ first c

-- A statement and then a value.
value-StaysInside :
    {T A B : Type 0} (f : T → Option (A × T)) (b : B) → StaysInside (statement f >> pure b)
value-StaysInside f b = bind-StaysInside (statement f) _ (statement-StaysInside f) (λ _ _. refl)

either-StaysInside :
    {T A : Type 0} (b : Bool) (m n : Sql T A)
    → StaysInside m
    → StaysInside n
    → StaysInside (if b then m else n)
either-StaysInside true m n first second = first
either-StaysInside false m n first second = second

module _ (session_id : ℕ) (server_id tool_name : Text) (fp : ToolFingerprints) (ts_ms : ℤ) where
  classify_older-StaysInside :
      (found : Option Row)
      → StaysInside (classify_older found session_id server_id tool_name fp ts_ms)
  unfolding classify_older insert_fingerprint touch_fingerprint
  classify_older-StaysInside none = value-StaysInside _ changed
  classify_older-StaysInside (some r) = value-StaysInside _ reverted

  classify_fingerprint-StaysInside :
      (rows : List Row)
      → StaysInside (classify_fingerprint rows session_id server_id tool_name fp ts_ms)
  unfolding classify_fingerprint insert_fingerprint touch_fingerprint
  classify_fingerprint-StaysInside [] = value-StaysInside _ new
  classify_fingerprint-StaysInside (latest ∷ rows) =
      either-StaysInside (matches fp latest) _ _ (value-StaysInside _ unchanged)
        (classify_older-StaysInside (find_match fp (latest ∷ rows)))

rekey-StaysInside :
    (server_id legacy_key tool_name : Text) (legacy : List Row)
    → StaysInside (rekey server_id legacy_key tool_name legacy)
unfolding rekey fingerprint_history
rekey-StaysInside server_id legacy_key tool_name [] c = refl
rekey-StaysInside server_id legacy_key tool_name (_ ∷ _) c =
    bind-StaysInside (statement (move_rows server_id legacy_key)) _ (statement-StaysInside _)
      (λ _. statement-StaysInside _) c

or_legacy-StaysInside :
    (server_id legacy_key tool_name : Text) (rows : List Row)
    → StaysInside (or_legacy server_id legacy_key tool_name rows)
unfolding or_legacy fingerprint_history
or_legacy-StaysInside server_id legacy_key tool_name (_ ∷ _) c = refl
or_legacy-StaysInside server_id legacy_key tool_name [] c =
    either-StaysInside (text_eq server_id legacy_key) (pure []) _ (λ _. refl)
      (bind-StaysInside (statement _) (rekey server_id legacy_key tool_name)
        (statement-StaysInside _) (rekey-StaysInside server_id legacy_key tool_name))
      c

record_fingerprint_txn-StaysInside :
    (session_id : ℕ) (server_id legacy_key tool_name : Text) (fp : ToolFingerprints) (ts_ms : ℤ)
    → StaysInside (record_fingerprint_txn session_id server_id legacy_key tool_name fp ts_ms)
unfolding record_fingerprint_txn scoped_history fingerprint_history
record_fingerprint_txn-StaysInside session_id server_id legacy_key tool_name fp ts_ms =
    bind-StaysInside (scoped_history server_id legacy_key tool_name) _
      (bind-StaysInside (statement _) _ (statement-StaysInside _)
        (or_legacy-StaysInside server_id legacy_key tool_name))
      (classify_fingerprint-StaysInside session_id server_id tool_name fp ts_ms)

-- How a transaction that began at the table `t` may end.
abbrev pub IsClosed : Table → Option FingerprintOutcome × Conn Table → Type 0
IsClosed t r = (r.1.saved ≡ none) × (r.0 ≡ none → r.1.tables ≡ t)

settle-IsClosed :
    (t : Table) (r : Option FingerprintOutcome × Conn Table)
    → r.1.saved ≡ some t
    → IsClosed t (settle r)
unfolding settle commit finish_commit rollback
settle-IsClosed t (none, c) e = ground arith
settle-IsClosed t (some o, c) e = ground arith

-- `BEGIN` outside a transaction either fails or saves the table.
begin_cases :
    (c : Conn Table)
    → c.saved ≡ none
    → (begin c ≡ (none, spent c))
      ⊎ (begin c ≡ (some done, record (spent c) { saved = some c.tables }))
unfolding begin
begin_cases c e = elim (Bool-cases (next_fault c)) [
  | inl y ↦ inl (rw (y, begin))
  | inr n ↦ inr (rw (n, e, begin))
]

-- Whichever statements the disk fails: after `record_fingerprint` no transaction is open, so that
-- the next one can begin, and if it failed, the table is as it was before.
pub record_fingerprint-IsClosed :
    (session_id : ℕ) (server_id legacy_key tool_name : Text) (fp : ToolFingerprints) (ts_ms : ℤ)
    (c : Conn Table)
    → c.saved ≡ none
    → IsClosed c.tables (record_fingerprint session_id server_id legacy_key tool_name fp ts_ms c)
unfolding record_fingerprint
record_fingerprint-IsClosed session_id server_id legacy_key tool_name fp ts_ms c e =
    elim (begin_cases c e) [
      | inl failed ↦ rw failed (e, λ _. refl)
      | inr begun ↦ rw begun (
          settle-IsClosed c.tables _ (
            record_fingerprint_txn-StaysInside session_id server_id legacy_key tool_name fp ts_ms
              _))
    ]
