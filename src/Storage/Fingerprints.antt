-- ===== src/Storage/Fingerprints.antt =====
-- `Store::record_fingerprint` of crates/storage/src/lib.rs and its statements over the table
-- `tool_fingerprints`.
use mcpglass.Base.{
  ℕ, ◌+◌, Option, none, some, List, [], ◌∷◌, ◌++◌, map, Bool, true, false, not, ◌&&◌, ◌||◌, ◌==◌,
  leb, ltb, any, if◌then◌else◌,
}
use mcpglass.Base.Text.{Text, text_eq}
use mcpglass.Base.Int.{ℤ, pos, negsuc, int_lt}
use mcpglass.Policy.Fingerprint.{ToolFingerprints}
use mcpglass.Storage.Sql.{
  Done, done, Conn, Sql, pure, ◌>>=◌, ◌>>◌, statement, begin, commit, rollback,
}
pub mod Atomic
pub mod History
pub mod Order
pub mod Recent
pub mod Current

pub data FingerprintOutcome : Type 0 where
  unchanged new changed reverted : FingerprintOutcome

-- A row of `tool_fingerprints`.
pub record Row : Type 0 where
  pub id : ℕ
  pub session_id : ℕ
  pub server_key : Text
  pub tool_name : Text
  pub fingerprint : Text
  pub first_seen_ts_ms : ℤ
  pub last_seen_ts_ms : Option ℤ
  pub fp_version : ℤ

-- The table, with the id that AUTOINCREMENT gives next.
pub record Table : Type 0 where
  pub rows : List Row
  pub next_id : ℕ

-- The scope of a comparison, and `UNIQUE (server_key, tool_name, fingerprint)`.
unfoldable pub in_scope : Text → Text → Row → Bool
in_scope server_key tool_name r = text_eq server_key r.server_key && text_eq tool_name r.tool_name

unfoldable pub same_key : Text → Text → Text → Row → Bool
same_key server_key tool_name fingerprint r =
    in_scope server_key tool_name r && text_eq r.fingerprint fingerprint

-- `COALESCE(last_seen_ts_ms, first_seen_ts_ms)`.
abbrev pub seen : Row → ℤ
seen r = elim r.last_seen_ts_ms [ none ↦ r.first_seen_ts_ms | some t ↦ t ]

-- `ORDER BY .. DESC, id DESC`.
unfoldable pub precedes : Row → Row → Bool
precedes a b = int_lt (seen b) (seen a) || (not (int_lt (seen a) (seen b)) && leb b.id a.id)

unfoldable pub insert_ordered : Row → List Row → List Row
insert_ordered r [] = r ∷ []
insert_ordered r (q ∷ qs) = if precedes r q then r ∷ q ∷ qs else q ∷ insert_ordered r qs

-- The rows of a scope, the most recent first.
unfoldable pub history_of : Text → Text → List Row → List Row
history_of server_key tool_name [] = []
history_of server_key tool_name (r ∷ rs) =
    if in_scope server_key tool_name r
    then insert_ordered r (history_of server_key tool_name rs)
    else history_of server_key tool_name rs

unfoldable pub fingerprint_history : Text → Text → Sql Table (List Row)
fingerprint_history server_key tool_name =
    statement (λ t. some (history_of server_key tool_name t.rows, t))

unfoldable pub insert_row : ℕ → Text → Text → Text → ℤ → Table → Option (Done × Table)
insert_row session_id server_key tool_name fp_v3 ts_ms t =
    if any (same_key server_key tool_name fp_v3) t.rows
    then none
    else some (
      done,
      record {
        rows =
            t.rows
            ++ (record {
              id = t.next_id;
              session_id = session_id;
              server_key = server_key;
              tool_name = tool_name;
              fingerprint = fp_v3;
              first_seen_ts_ms = ts_ms;
              last_seen_ts_ms = some ts_ms;
              fp_version = pos 3;
            })
              ∷ [];
        next_id = t.next_id + 1;
      },
    )

unfoldable pub insert_fingerprint : ℕ → Text → Text → Text → ℤ → Sql Table Done
insert_fingerprint session_id server_key tool_name fp_v3 ts_ms =
    statement (insert_row session_id server_key tool_name fp_v3 ts_ms)

-- `fp_version < 3`.
unfoldable pub is_legacy : ℤ → Bool
is_legacy (negsuc n) = true
is_legacy (pos n) = ltb n 3

-- The rows with a change to the one of that id.
unfoldable pub at_id : ℕ → (Row → Row) → List Row → List Row
at_id id f [] = []
at_id id f (r ∷ rs) = (if r.id == id then f r else r) ∷ at_id id f rs

unfoldable pub row_of : ℕ → List Row → Option Row
row_of id [] = none
row_of id (r ∷ rs) = if r.id == id then some r else row_of id rs

-- `SET last_seen_ts_ms = ?2`, which no constraint is about.
unfoldable pub refresh : ℕ → ℤ → Table → Option (Done × Table)
refresh id ts_ms t =
    some
      (done, record t { rows = at_id id (λ r. record r { last_seen_ts_ms = some ts_ms }) t.rows })

-- The key that the row would get must not stand in another row.
unfoldable pub is_taken : ℕ → Text → List Row → Bool
is_taken id fp_v3 rows = elim (row_of id rows) [
  | none ↦ false
  | some r ↦ any (λ q. not (q.id == id) && same_key r.server_key r.tool_name fp_v3 q) rows
]

-- `SET last_seen_ts_ms = ?2, fingerprint = ?3, fp_version = 3`.
unfoldable pub repin : ℕ → Text → ℤ → Table → Option (Done × Table)
repin id fp_v3 ts_ms t =
    if is_taken id fp_v3 t.rows
    then none
    else some (
      done,
      record t {
        rows =
            at_id id
              (λ r. record r {
                last_seen_ts_ms = some ts_ms;
                fingerprint = fp_v3;
                fp_version = pos 3;
              })
              t.rows;
      },
    )

unfoldable pub touch_fingerprint : ℕ → ℤ → Text → ℤ → Sql Table Done
touch_fingerprint id fp_version fp_v3 ts_ms =
    statement (if is_legacy fp_version then repin id fp_v3 ts_ms else refresh id ts_ms)

-- The hash that a stored row is compared with: the one of its own version.
unfoldable pub hash_for : ToolFingerprints → ℤ → Text
hash_for fp (negsuc n) = fp.v1
hash_for fp (pos n) = if leb n 1 then fp.v1 else if n == 2 then fp.v2 else fp.v3

unfoldable pub matches : ToolFingerprints → Row → Bool
matches fp r = text_eq r.fingerprint (hash_for fp r.fp_version)

unfoldable pub find_match : ToolFingerprints → List Row → Option Row
find_match fp [] = none
find_match fp (r ∷ rs) = if matches fp r then some r else find_match fp rs

-- Behind the test of the latest row: an older row that matches, or a definition never seen.
unfoldable pub classify_older :
    Option Row → ℕ → Text → Text → ToolFingerprints → ℤ → Sql Table FingerprintOutcome
classify_older (some r) session_id server_id tool_name fp ts_ms = do
  touch_fingerprint r.id r.fp_version fp.v3 ts_ms
  pure reverted
classify_older none session_id server_id tool_name fp ts_ms = do
  insert_fingerprint session_id server_id tool_name fp.v3 ts_ms
  pure changed

unfoldable pub classify_fingerprint :
    List Row → ℕ → Text → Text → ToolFingerprints → ℤ → Sql Table FingerprintOutcome
classify_fingerprint [] session_id server_id tool_name fp ts_ms = do
  insert_fingerprint session_id server_id tool_name fp.v3 ts_ms
  pure new
classify_fingerprint (latest ∷ rows) session_id server_id tool_name fp ts_ms =
    if matches fp latest
    then (do touch_fingerprint latest.id latest.fp_version fp.v3 ts_ms; pure unchanged)
    else classify_older (find_match fp (latest ∷ rows)) session_id server_id tool_name fp ts_ms

-- `UPDATE tool_fingerprints SET server_key = ?1 WHERE server_key = ?2`.
unfoldable pub move_key : Text → Text → Row → Row
move_key server_id legacy_key r =
    if text_eq r.server_key legacy_key then record r { server_key = server_id } else r

unfoldable pub move_rows : Text → Text → Table → Option (Done × Table)
move_rows server_id legacy_key t =
    if any
      (λ r.
        text_eq r.server_key legacy_key
        && any (same_key server_id r.tool_name r.fingerprint) t.rows)
      t.rows
    then none
    else some (done, record t { rows = map (move_key server_id legacy_key) t.rows })

-- `if !legacy.is_empty()`: re-key the server's rows and read the history again.
unfoldable pub rekey : Text → Text → Text → List Row → Sql Table (List Row)
rekey server_id legacy_key tool_name [] = pure []
rekey server_id legacy_key tool_name (_ ∷ _) = do
  statement (move_rows server_id legacy_key)
  fingerprint_history server_id tool_name

-- `if rows.is_empty() && server_id != legacy_key`.
unfoldable pub or_legacy : Text → Text → Text → List Row → Sql Table (List Row)
or_legacy server_id legacy_key tool_name (r ∷ rows) = pure (r ∷ rows)
or_legacy server_id legacy_key tool_name [] =
    if text_eq server_id legacy_key
    then pure []
    else fingerprint_history legacy_key tool_name >>= rekey server_id legacy_key tool_name

-- The first half of `record_fingerprint_txn`: the history, moved from the legacy key if need be.
unfoldable pub scoped_history : Text → Text → Text → Sql Table (List Row)
scoped_history server_id legacy_key tool_name =
    fingerprint_history server_id tool_name >>= or_legacy server_id legacy_key tool_name

unfoldable pub record_fingerprint_txn :
    ℕ → Text → Text → Text → ToolFingerprints → ℤ → Sql Table FingerprintOutcome
record_fingerprint_txn session_id server_id legacy_key tool_name fp ts_ms = do
  rows ← scoped_history server_id legacy_key tool_name
  classify_fingerprint rows session_id server_id tool_name fp ts_ms

-- `COMMIT` behind a success, and `ROLLBACK` if it fails.
unfoldable pub finish_commit :
    FingerprintOutcome → Option Done × Conn Table → Option FingerprintOutcome × Conn Table
finish_commit o (some _, c) = (some o, c)
finish_commit o (none, c) = (none, rollback c)

unfoldable pub settle :
    Option FingerprintOutcome × Conn Table → Option FingerprintOutcome × Conn Table
settle (none, c) = (none, rollback c)
settle (some o, c) = finish_commit o (commit c)

unfoldable pub record_fingerprint :
    ℕ → Text → Text → Text → ToolFingerprints → ℤ → Sql Table FingerprintOutcome
record_fingerprint session_id server_id legacy_key tool_name fp ts_ms = begin >>= λ _ c.
    settle (record_fingerprint_txn session_id server_id legacy_key tool_name fp ts_ms c)
