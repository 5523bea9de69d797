-- ===== src/Tests/Storage.antt =====
-- The fingerprint table on a small history.
use mcpglass.Base.{◌+◌, length, ℕ, none, some, [], ◌∷◌, ◌≡◌, refl, true, false, inr}
use mcpglass.Base.Int.{pos, int_lt}
use mcpglass.Base.Text.{Text, codes, text_eq, text_eq_iff}
use mcpglass.Policy.Fingerprint.{ToolFingerprints}
use mcpglass.Storage.Sql.{Conn}
use mcpglass.Storage.Fingerprints.{
  FingerprintOutcome, Row, Table, is_legacy, in_scope, history_of, insert_ordered, precedes,
  reverted, record_fingerprint,
}
use mcpglass.Storage.Fingerprints.Atomic.{IsClosed, record_fingerprint-IsClosed}
use mcpglass.Storage.Fingerprints.Current.{Answers, record_fingerprint-Answers}
use mcpglass.Storage.Fingerprints.Recent.{IsAnswer, verdict}
use mcpglass.Storage.Database.{SessionRow, Database}
use mcpglass.Storage.Prune.{
  PruneStats, prune_sessions_before, preview_sessions_before, delete_session,
}
use mcpglass.Storage.Prune.Preview.{sound, nothing, Pruned, prune-preview}
use mcpglass.Storage.Prune.Sessions.{Ok}
use mcpglass.Storage.Prune.MaxSize.{Pages, prune_to_max_size}
use mcpglass.Storage.Prune.MaxSize.Terminates.{Reached, prune_to_max_size-Ok}
use mcpglass.Storage.Prune.Baseline.{prune-fingerprints}
use mcpglass.Tap.Loop.{change_event}
use mcpglass.Tests.Sample.{serde, libs}

abbrev row : ℕ → ℕ → Text → Row
row id ts fingerprint = record {
  id = id;
  session_id = 1;
  server_key = codes "srv";
  tool_name = codes "read";
  fingerprint = fingerprint;
  first_seen_ts_ms = pos ts;
  last_seen_ts_ms = some (pos ts);
  fp_version = pos 3;
}

-- The tool was `aa`, and then `bb`.
abbrev table : Table
table = record { rows = row 1 10 (codes "aa") ∷ row 2 20 (codes "bb") ∷ []; next_id = 3 }

abbrev observed : ToolFingerprints
observed = record { v1 = codes "a1"; v2 = codes "a2"; v3 = codes "aa" }

abbrev conn : Conn Table
conn = record { tables = table; saved = none; faults = false ∷ false ∷ true ∷ [] }

verdict_reverted :
    verdict
      (codes "srv")
      (codes "read")
      (codes "aa")
      (history_of (codes "srv") (codes "read") table.rows)
    ≡ reverted
unfolding verdict history_of in_scope text_eq insert_ordered precedes int_lt
verdict_reverted = refl

record_fingerprint-IsClosed_example :
    IsClosed table
      (record_fingerprint 1 (codes "srv") (codes "old") (codes "read") observed (pos 30) conn)
record_fingerprint-IsClosed_example =
    record_fingerprint-IsClosed 1 (codes "srv") (codes "old") (codes "read") observed (pos 30) conn
      refl

record_fingerprint-Answers_example :
    (o : FingerprintOutcome) × IsAnswer (codes "srv") (codes "read") (codes "aa") table.rows o
    × Answers (codes "srv") (codes "read") (codes "aa") o table (
        record_fingerprint 1
          (codes "srv")
          (codes "old")
          (codes "read")
          observed
          (pos 30)
          (record { tables = table; saved = none; faults = [] }))
unfolding is_legacy text_eq
record_fingerprint-Answers_example =
    record_fingerprint-Answers 1 (codes "srv") (codes "old") (codes "read") observed (pos 30) table
      (refl, (refl, tt)) (inr ((λ s. other s.0), ((λ s. other s.0), tt)))
  where
    wrong : false ≡ true → ⊥
    wrong q = cc

    other : codes "old" ≡ codes "srv" → ⊥
    other e = absurd (wrong ((text_eq_iff (codes "old") (codes "srv")).1 e))

abbrev session : ℕ → ℕ → SessionRow
session id ts = record {
  id = id;
  label = codes "demo";
  command = codes "cmd";
  started_at_ms = pos ts;
  ended_at_ms = none;
  program = none;
  argv_json = none;
  transport = none;
  server_id = none;
  protocol_version = none;
  client_protocol_version = none;
  protocol_version_source = none;
}

-- An old session with a change of a fingerprint, and a recent one.
abbrev pub database : Database
database = record {
  sessions = session 1 10 ∷ session 2 90 ∷ [];
  next_session = 3;
  messages = [];
  security_events = (1, change_event serde libs (λ b. b) reverted (codes "read") (pos 12)) ∷ [];
  inject_events = [];
  fingerprints = table;
}

prune-preview_example :
    (stats : PruneStats) × ((prune_sessions_before (pos 50) (sound database)).0 ≡ some stats)
    × ((preview_sessions_before (pos 50) (sound database)).0 ≡ some stats)
    × Pruned (pos 50) database (prune_sessions_before (pos 50) (sound database)).1.tables stats
    × ((preview_sessions_before (pos 50) (prune_sessions_before (pos 50) (sound database)).1).0
        ≡ some nothing)
prune-preview_example = prune-preview (pos 50) database

prune-fingerprints_example :
    ((delete_session 1 (sound database)).1.tables.fingerprints ≡ table)
    × ((prune_sessions_before (pos 50) (sound database)).1.tables.fingerprints ≡ table)
prune-fingerprints_example = prune-fingerprints 1 (pos 50) (sound database) refl

-- Each session takes a page, and one page is free.
abbrev pub pages : Pages
pages = record {
  page_count = λ t. length t.sessions + 1;
  freelist_count = λ t. 1;
  page_size = λ t. 4096;
}

prune_to_max_size-Ok_example :
    Ok (Reached pages 5000) (prune_to_max_size pages 5000 (sound database))
prune_to_max_size-Ok_example = prune_to_max_size-Ok pages 5000 (sound database)
