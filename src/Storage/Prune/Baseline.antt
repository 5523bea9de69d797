-- ===== src/Storage/Prune/Baseline.antt =====
-- What deleting and pruning leave of the fingerprints.
use mcpglass.Base.{ℕ, Option, none, some, ◌≡◌, refl, ◌∙◌, sym, subst, Bool, true, false, any, ◌==◌}
use mcpglass.Base.Int.{ℤ}
use mcpglass.Storage.Sql.{
  Done, done, Conn, Sql, pure, ◌>>=◌, followed, statement, begin, commit, rollback, spent,
  next_fault,
}
use mcpglass.Storage.Fingerprints.{Table}
use mcpglass.Storage.Database.{SessionRow, Database}
use mcpglass.Storage.Prune.{
  PruneStats, Where, delete_messages, delete_security_events, delete_inject_events, delete_sessions,
  committed, settle_txn, in_immediate_txn, is_before, is_of_session_before, prune_rows,
  prune_sessions_before, is_session, delete_session_rows, delete_existing, delete_session,
}

-- The fingerprints are `f`, also those that a `ROLLBACK` would go back to.
abbrev Saved : Table → Option Database → Type 0
Saved f none = Unit {0}
Saved f (some t) = t.fingerprints ≡ f

abbrev Holds : Table → Conn Database → Type 0
Holds f c = (c.tables.fingerprints ≡ f) × Saved f c.saved

abbrev Keeps : {A : Type 0} → Table → Sql Database A → Type 0
Keeps f m = (c : Conn Database) → Holds f c → Holds f (m c).1

statement-Keeps :
    {A : Type 0} (f : Table) (a : Database → A) (g : Database → Database)
    → ((t : Database) → (g t).fingerprints ≡ t.fingerprints)
    → Keeps f (statement (λ t. some (a t, g t)))
unfolding statement
statement-Keeps {A} f a g same c h =
    elim (next_fault c)
      as (λ b.
        Holds f
          (elim b as (λ _. Option A × Conn Database) [
            | true ↦ (none, spent c)
            | false ↦ (some (a c.tables), record (spent c) { tables = g c.tables })
          ]).1) [ true ↦ h | false ↦ (same c.tables ∙ h.0, h.1) ]

bind-Keeps :
    {A B : Type 0} (f : Table) (m : Sql Database A) (k : A → Sql Database B)
    → Keeps f m
    → ((a : A) → Keeps f (k a))
    → Keeps f (m >>= k)
bind-Keeps {A} {B} f m k first later c h = behind (m c) (first c h)
  where
    behind : (r : Option A × Conn Database) → Holds f r.1 → Holds f (followed k r).1
    behind (none, d) q = q
    behind (some a, d) q = later a d q

rollback-Holds : (f : Table) (c : Conn Database) → Holds f c → Holds f (rollback c)
unfolding rollback
rollback-Holds f c h =
    elim c.saved
        as (λ o.
          Saved f o
          → Holds f (elim o as (λ _. Conn Database) [
            | none ↦ c
            | some t ↦ record c { tables = t; saved = none }
          ])) [ none ↦ λ _. h | some t ↦ λ same. (same, tt) ]
      h.1

commit-Keeps : (f : Table) → Keeps f commit
unfolding commit
commit-Keeps f c h =
    elim (next_fault c)
      as (λ b.
        Holds f
          (elim b as (λ _. Option Done × Conn Database) [
            | true ↦ (none, spent c)
            | false ↦ (some done, record (spent c) { saved = none })
          ]).1) [ true ↦ h | false ↦ (h.0, tt) ]

begin-Keeps : (f : Table) → Keeps f begin
unfolding begin
begin-Keeps f c h =
    elim (next_fault c)
      as (λ b.
        Holds f
          (elim b as (λ _. Option Done × Conn Database) [
            | true ↦ (none, spent c)
            | false ↦ elim c.saved as (λ _. Option Done × Conn Database) [
              | none ↦ (some done, record (spent c) { saved = some c.tables })
              | some t ↦ (none, spent c)
            ]
          ]).1) [
            | true ↦ h
            | false ↦
                elim c.saved
                  as (λ o.
                    Holds f
                      (elim o as (λ _. Option Done × Conn Database) [
                        | none ↦ (some done, record (spent c) { saved = some c.tables })
                        | some t ↦ (none, spent c)
                      ]).1) [ none ↦ (h.0, h.0) | some t ↦ h ]
          ]

committed-Holds :
    {A : Type 0} (f : Table) (a : A) (r : Option Done × Conn Database)
    → Holds f r.1
    → Holds f (committed a r).1
unfolding committed
committed-Holds f a (none, c) h = rollback-Holds f c h
committed-Holds f a (some d, c) h = h

settle_txn-Holds :
    {A : Type 0} (f : Table) (r : Option A × Conn Database) → Holds f r.1 → Holds f (settle_txn r).1
unfolding settle_txn
settle_txn-Holds f (none, c) h = rollback-Holds f c h
settle_txn-Holds f (some a, c) h = committed-Holds f a (commit c) (commit-Keeps f c h)

in_immediate_txn-Keeps :
    {A : Type 0} (f : Table) (m : Sql Database A) → Keeps f m → Keeps f (in_immediate_txn m)
unfolding in_immediate_txn
in_immediate_txn-Keeps f m kept =
    bind-Keeps f begin _ (begin-Keeps f) (λ _ c h. settle_txn-Holds f (m c) (kept c h))

-- The four deletes of a transaction.
deletes-Keeps :
    (f : Table) (w : Where) (p : SessionRow → Bool) (k : ℕ → ℕ → ℕ → ℕ → PruneStats)
    → Keeps f (
        delete_messages w >>= λ m. delete_security_events w >>= λ s.
        delete_inject_events w >>= λ i. delete_sessions p >>= λ n. pure (k m s i n))
unfolding delete_messages delete_security_events delete_inject_events delete_sessions
deletes-Keeps f w p k = bind-Keeps f (delete_messages w) _ (statement-Keeps f _ _ (λ _. refl)) (λ _.
    bind-Keeps f (delete_security_events w) _ (statement-Keeps f _ _ (λ _. refl)) (λ _.
      bind-Keeps f (delete_inject_events w) _ (statement-Keeps f _ _ (λ _. refl))
        (λ _. bind-Keeps f (delete_sessions p) _ (statement-Keeps f _ _ (λ _. refl)) (λ _ _ h. h))))

delete_existing-Keeps : (f : Table) (id : ℕ) (b : Bool) → Keeps f (delete_existing id b)
unfolding delete_existing delete_session_rows
delete_existing-Keeps f id false = λ c h. h
delete_existing-Keeps f id true =
    bind-Keeps f (in_immediate_txn (delete_session_rows id)) _
      (in_immediate_txn-Keeps f (delete_session_rows id) (deletes-Keeps f (is_session id) _ _))
      (λ _ _ h. h)

-- Neither deleting a session nor pruning old ones touches the fingerprints, whichever statements
-- fail: the baseline of a server outlives the session that recorded it.
pub prune-fingerprints :
    (id : ℕ) (cutoff_ms : ℤ) (c : Conn Database)
    → c.saved ≡ none
    → ((delete_session id c).1.tables.fingerprints ≡ c.tables.fingerprints)
      × ((prune_sessions_before cutoff_ms c).1.tables.fingerprints ≡ c.tables.fingerprints)
unfolding delete_session prune_sessions_before prune_rows
prune-fingerprints id cutoff_ms c e =
    let f = c.tables.fingerprints in
    let start : Holds f c = (refl, subst (Saved f) (sym e) tt) in
    (
      (bind-Keeps f (statement (λ t. some (any (λ s. s.id == id) t.sessions, t)))
          (delete_existing id)
          (statement-Keeps f (λ t. any (λ s. s.id == id) t.sessions) (λ t. t) (λ _. refl))
          (delete_existing-Keeps f id) c start).0,
      (in_immediate_txn-Keeps f (prune_rows cutoff_ms)
          (deletes-Keeps f (is_of_session_before cutoff_ms) (is_before cutoff_ms) _) c start).0,
    )
