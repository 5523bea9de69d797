-- ===== src/Storage/Fingerprints/Current.antt =====
-- What `record_fingerprint` answers on a table that this version of the program wrote.
use mcpglass.Base.{
  ℕ, Option, none, some, List, [], ◌∷◌, ◌++◌, map, append-nil, ◌≡◌, refl, sym, ap, ◌∙◌, Bool-cases,
  true, false, ◌==◌, if◌then◌else◌, any, All, ◌⊎◌, inl, inr, arith,
}
use mcpglass.Base.Text.{Text, text_eq, text_eq_iff}
use mcpglass.Base.Int.{ℤ}
use mcpglass.Policy.Fingerprint.{ToolFingerprints}
use mcpglass.Storage.Sql.{Conn, pure, ◌>>◌, statement, begin, commit}
use mcpglass.Storage.Fingerprints.{
  FingerprintOutcome, new, unchanged, changed, reverted, Row, Table, same_key, history_of,
  fingerprint_history, insert_row, insert_fingerprint, is_legacy, at_id, refresh, touch_fingerprint,
  find_match, classify_older, classify_fingerprint, or_legacy, rekey, scoped_history,
  record_fingerprint_txn, finish_commit, settle, record_fingerprint,
}
use mcpglass.Storage.Fingerprints.History.{
  IsCurrent, has_fingerprint, matches-IsCurrent, Searched, find_match-Searched, any-history_of,
  history_of-IsCurrent,
}
use mcpglass.Storage.Fingerprints.Recent.{
  InScope, IsAnswer, verdict, verdict-IsAnswer, history_of-nothing,
}

abbrev pub key_of : Row → Text × Text × Text
key_of r = (r.server_key, r.tool_name, r.fingerprint)

-- The keys that an answer adds to the table.
unfoldable pub added : Text → Text → Text → FingerprintOutcome → List (Text × Text × Text)
added server_id tool_name f new = (server_id, tool_name, f) ∷ []
added server_id tool_name f changed = (server_id, tool_name, f) ∷ []
added server_id tool_name f unchanged = []
added server_id tool_name f reverted = []

-- A connection inside a transaction on the table `t`, where the disk fails nothing.
abbrev inside : Table → Conn Table
inside t = record { tables = t; saved = some t; faults = [] }

-- The answer `o` was given, the table is current still, and its keys are those of `t` and the ones
-- that the answer adds.
abbrev pub Answers :
    Text
    → Text
    → Text
    → FingerprintOutcome
    → Table
    → Option FingerprintOutcome × Conn Table
    → Type 0
Answers server_id tool_name f o t d =
    (d.0 ≡ some o)
    × All IsCurrent d.1.tables.rows
    × (map key_of d.1.tables.rows ≡ map key_of t.rows ++ added server_id tool_name f o)
    × (d.1.faults ≡ [])

add_row :
    (rows : List Row) (r : Row)
    → All IsCurrent rows
    → IsCurrent r
    → All IsCurrent (rows ++ r ∷ [])
      × (map key_of (rows ++ r ∷ []) ≡ map key_of rows ++ key_of r ∷ [])
add_row [] r hs h = ((h, hs), refl)
add_row (q ∷ rows) r hs h =
    let (a, b) = add_row rows r hs.1 h in ((hs.0, a), ap (λ x. key_of q ∷ x) b)

-- A change of the time alone keeps keys and versions.
refreshed :
    (id : ℕ) (ts_ms : ℤ) (rows : List Row)
    → All IsCurrent rows
    → let rows' = at_id id (λ r. record r { last_seen_ts_ms = some ts_ms }) rows in
      All IsCurrent rows' × (map key_of rows' ≡ map key_of rows)
unfolding at_id
refreshed id ts_ms [] hs = (hs, refl)
refreshed id ts_ms (r ∷ rows) hs =
    let (a, b) = refreshed id ts_ms rows hs.1 in
    elim (Bool-cases (r.id == id)) [
      | inl y ↦ rw y ((hs.0, a), ap (λ x. key_of r ∷ x) b)
      | inr n ↦ rw n ((hs.0, a), ap (λ x. key_of r ∷ x) b)
    ]

module _ (session_id : ℕ) (server_id tool_name : Text) (fp : ToolFingerprints) (ts_ms : ℤ) where
  inserts :
      (o : FingerprintOutcome) (t : Table)
      → added server_id tool_name fp.v3 o ≡ (server_id, tool_name, fp.v3) ∷ []
      → any (same_key server_id tool_name fp.v3) t.rows ≡ false
      → All IsCurrent t.rows
      → Answers server_id tool_name fp.v3 o t
          ((insert_fingerprint session_id server_id tool_name fp.v3 ts_ms >> pure o) (inside t))
  unfolding insert_fingerprint statement insert_row is_legacy
  inserts o t adds free hs =
      let (a, b) = add_row t.rows _ hs refl in rw free (rw adds (refl, a, b, refl))

  touches :
      (o : FingerprintOutcome) (t : Table) (r : Row)
      → added server_id tool_name fp.v3 o ≡ []
      → IsCurrent r
      → All IsCurrent t.rows
      → Answers server_id tool_name fp.v3 o t
          ((touch_fingerprint r.id r.fp_version fp.v3 ts_ms >> pure o) (inside t))
  unfolding touch_fingerprint statement refresh
  touches o t r adds h hs =
      let (a, b) = refreshed r.id ts_ms t.rows hs in
      rw h (rw adds (refl, a, b ∙ sym (append-nil (map key_of t.rows)), refl))

  -- The search among all rows, behind a latest row that does not match.
  older :
      (t : Table) (latest : Row) (rows : List Row) (found : Option Row)
      → has_fingerprint fp.v3 latest ≡ false
      → Searched fp.v3 (latest ∷ rows) found
      → any (same_key server_id tool_name fp.v3) t.rows
        ≡ any (has_fingerprint fp.v3) (latest ∷ rows)
      → All IsCurrent t.rows
      → Answers server_id tool_name fp.v3
          (if any (has_fingerprint fp.v3) rows then reverted else changed)
          t
          (classify_older found session_id server_id tool_name fp ts_ms (inside t))
  unfolding classify_older Searched added
  older t latest rows none n none_found keys hs =
      let empty : any (has_fingerprint fp.v3) rows ≡ false = ground arith in
      rw empty (inserts changed t refl (keys ∙ none_found) hs)
  older t latest rows (some r) n (h, one_found) keys hs =
      let there : any (has_fingerprint fp.v3) rows ≡ true = ground arith in
      rw there (touches reverted t r refl h hs)

  classify_fingerprint-Answers :
      (t : Table) (rows : List Row)
      → All IsCurrent rows
      → any (same_key server_id tool_name fp.v3) t.rows ≡ any (has_fingerprint fp.v3) rows
      → All IsCurrent t.rows
      → Answers server_id tool_name fp.v3
          (verdict server_id tool_name fp.v3 rows)
          t
          (classify_fingerprint rows session_id server_id tool_name fp ts_ms (inside t))
  unfolding classify_fingerprint verdict added
  classify_fingerprint-Answers t [] current keys hs = inserts new t refl keys hs
  classify_fingerprint-Answers t (latest ∷ rows) current keys hs =
      elim (Bool-cases (has_fingerprint fp.v3 latest)) [
        | inl y ↦
            rw (matches-IsCurrent fp latest current.0)
              (rw y (touches unchanged t latest refl current.0 hs))
        | inr n ↦ rw (matches-IsCurrent fp latest current.0) (
            rw n (
              older t latest rows (find_match fp (latest ∷ rows)) n
                (find_match-Searched fp (latest ∷ rows) current) keys hs))
      ]

-- Without rows under the legacy key, the history is the one of the server id.
or_legacy_lem :
    (server_id legacy_key tool_name : Text) (rows : List Row) (t : Table)
    → (text_eq server_id legacy_key ≡ true) ⊎ (history_of legacy_key tool_name t.rows ≡ [])
    → or_legacy server_id legacy_key tool_name rows (inside t) ≡ (some rows, inside t)
unfolding or_legacy fingerprint_history statement rekey
or_legacy_lem server_id legacy_key tool_name (r ∷ rows) t h = refl
or_legacy_lem server_id legacy_key tool_name [] t (inl same) = rw same
or_legacy_lem server_id legacy_key tool_name [] t (inr empty) =
    elim (Bool-cases (text_eq server_id legacy_key)) [ inl y ↦ rw y | inr n ↦ rw n (rw empty) ]

no_history :
    (server_id legacy_key tool_name : Text) (t : Table)
    → (server_id ≡ legacy_key) ⊎ All (λ q. ¬ InScope legacy_key tool_name q) t.rows
    → (text_eq server_id legacy_key ≡ true) ⊎ (history_of legacy_key tool_name t.rows ≡ [])
no_history server_id legacy_key tool_name t (inl same) =
    inl ((text_eq_iff server_id legacy_key).1 same)
no_history server_id legacy_key tool_name t (inr none_there) =
    inr (history_of-nothing legacy_key tool_name t.rows none_there)

settle-Answers :
    (server_id tool_name f : Text) (o : FingerprintOutcome) (t : Table)
    (d : Option FingerprintOutcome × Conn Table)
    → Answers server_id tool_name f o t d
    → Answers server_id tool_name f o t (settle d)
unfolding settle commit finish_commit
settle-Answers server_id tool_name f o t (none, c) (e, a, b, q) = ground arith
settle-Answers server_id tool_name f o t (some p, c) (e, a, b, q) = rw q (e, a, b, refl)

-- With no fault of the disk, on a table whose rows all have the newest version, and for a tool
-- without rows under another legacy key: an answer is always given, so that no constraint is ever
-- violated. It is `new` if no row is of that server and tool; otherwise one of the rows of that
-- server and tool is the latest, none of them seen after it or at the same time with a larger id.
-- It is `unchanged` if the latest has the observed fingerprint, `reverted` if another row of that
-- server and tool has it, and `changed` if none has. The rows are all of the newest version still,
-- their keys are the same as before, in order, and the observed fingerprint is added behind them
-- exactly if the answer is `new` or `changed`.
pub record_fingerprint-Answers :
    (session_id : ℕ) (server_id legacy_key tool_name : Text) (fp : ToolFingerprints) (ts_ms : ℤ)
    (t : Table)
    → All IsCurrent t.rows
    → (server_id ≡ legacy_key) ⊎ All (λ q. ¬ InScope legacy_key tool_name q) t.rows
    → (o : FingerprintOutcome) × IsAnswer server_id tool_name fp.v3 t.rows o
      × Answers server_id tool_name fp.v3 o t (
          record_fingerprint session_id server_id legacy_key tool_name fp ts_ms
            (record { tables = t; saved = none; faults = [] }))
unfolding record_fingerprint begin record_fingerprint_txn scoped_history fingerprint_history
    statement
record_fingerprint-Answers session_id server_id legacy_key tool_name fp ts_ms t hs no_legacy =
    let rows = history_of server_id tool_name t.rows in
    (
      verdict server_id tool_name fp.v3 rows,
      verdict-IsAnswer server_id tool_name fp.v3 t.rows,
      rw
          (or_legacy_lem server_id legacy_key tool_name rows t
            (no_history server_id legacy_key tool_name t no_legacy))
          (settle-Answers server_id tool_name fp.v3 (verdict server_id tool_name fp.v3 rows) t _ (
            classify_fingerprint-Answers session_id server_id tool_name fp ts_ms t rows
              (history_of-IsCurrent server_id tool_name t.rows hs)
              (any-history_of server_id tool_name fp.v3 t.rows) hs)),
    )
