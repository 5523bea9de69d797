-- ===== src/Storage/Prune/Sessions.antt =====
-- What deleting a session leaves of the sessions.
use mcpglass.Base.{
  List, ℕ, Option, none, some, Option-cases, ◌≡◌, inl, inr, refl, sym, ap, ◌∙◌, subst, Bool, true,
  false, Bool-cases, ◌==◌, any,
}
use mcpglass.Storage.Sql.{Done, Conn, Sql, followed, statement, begin, commit, next_fault}
use mcpglass.Storage.Database.{SessionRow, Database}
use mcpglass.Storage.Prune.{
  PruneStats, keep_unless, delete_messages, delete_security_events, delete_inject_events,
  delete_sessions, committed, settle_txn, in_immediate_txn, is_session, delete_session_rows,
  delete_existing, delete_session,
}

-- What holds of a result and of the tables, if there is a result.
abbrev pub Ok : {A : Type 0} → (A → Database → Type 0) → Option A × Conn Database → Type 0
Ok Q (some a, c) = Q a c.tables
Ok Q (none, c) = Unit

pub Ok-bind :
    {A B : Type 0} (Q : A → Database → Type 0) (R : B → Database → Type 0) (k : A → Sql Database B)
    (r : Option A × Conn Database)
    → Ok Q r
    → ((a : A) (c : Conn Database) → Q a c.tables → Ok R (k a c))
    → Ok R (followed k r)
Ok-bind Q R k (none, c) q h = tt
Ok-bind Q R k (some a, c) q h = h a c q

pub statement-Ok :
    {A : Type 0} (a : Database → A) (g : Database → Database) (c : Conn Database)
    → Ok (λ x t. (x ≡ a c.tables) × (t ≡ g c.tables)) (statement (λ t. some (a t, g t)) c)
unfolding statement
statement-Ok a g c = elim (Bool-cases (next_fault c)) [
  | inl e ↦ rw (e, statement) tt
  | inr e ↦ rw (e, statement) (refl, refl)
]

begin-Ok : (c : Conn Database) → Ok (λ _ t. t ≡ c.tables) (begin c)
unfolding begin
begin-Ok c = elim (Bool-cases (next_fault c)) [
  | inl e ↦ rw (e, begin) tt
  | inr e ↦ elim (Option-cases c.saved) [
    | inl f ↦ rw (e, begin) (rw f refl)
    | inr (t, f) ↦ rw (e, begin) (rw f tt)
  ]
]

commit-Ok : (c : Conn Database) → Ok (λ _ t. t ≡ c.tables) (commit c)
unfolding commit
commit-Ok c = elim (Bool-cases (next_fault c)) [
  | inl e ↦ rw (e, commit) tt
  | inr e ↦ rw (e, commit) refl
]

committed-Ok :
    {A : Type 0} (Q : A → Database → Type 0) (a : A) (u : Database)
    (r : Option Done × Conn Database)
    → Ok (λ _ t. t ≡ u) r
    → Q a u
    → Ok Q (committed a r)
unfolding committed
committed-Ok Q a u (none, c) h q = tt
committed-Ok Q a u (some d, c) h q = subst (Q a) (sym h) q

settle_txn-Ok :
    {A : Type 0} (Q : A → Database → Type 0) (r : Option A × Conn Database)
    → Ok Q r
    → Ok Q (settle_txn r)
unfolding settle_txn
settle_txn-Ok Q (none, c) h = tt
settle_txn-Ok Q (some a, c) h = committed-Ok Q a c.tables (commit c) (commit-Ok c) h

in_immediate_txn-Ok :
    {A : Type 0} (Q : A → Database → Type 0) (m : Sql Database A) (t : Database)
    → ((c : Conn Database) → c.tables ≡ t → Ok Q (m c))
    → (c : Conn Database) → c.tables ≡ t
    → Ok Q (in_immediate_txn m c)
unfolding in_immediate_txn
in_immediate_txn-Ok Q m t h c e =
    Ok-bind (λ _ u. u ≡ c.tables) Q (λ _ d. settle_txn (m d)) (begin c) (begin-Ok c)
      (λ _ d same. settle_txn-Ok Q (m d) (h d (same ∙ e)))

-- The sessions behind a statement.
sessions_after :
    {A : Type 0} (ss : List SessionRow) (a : Database → A) (g : Database → Database)
    (c : Conn Database)
    → (g c.tables).sessions ≡ ss
    → Ok (λ (_ : A) t. t.sessions ≡ ss) (statement (λ t. some (a t, g t)) c)
unfolding statement
sessions_after ss a g c e = elim (Bool-cases (next_fault c)) [
  | inl f ↦ rw (f, statement) tt
  | inr f ↦ rw (f, statement) e
]

-- Deleting the rows of a session leaves the other sessions.
delete_session_rows-Ok :
    (id : ℕ) (t : Database) (c : Conn Database)
    → c.tables ≡ t
    → Ok
        (λ (_ : PruneStats) u. u.sessions ≡ keep_unless (λ s. s.id == id) t.sessions)
        (delete_session_rows id c)
unfolding delete_session_rows delete_messages delete_security_events delete_inject_events
    delete_sessions
delete_session_rows-Ok id t c e =
    let same : c.tables.sessions ≡ t.sessions = ap (λ u. u.sessions) e in
    Ok-bind (λ (_ : ℕ) u. u.sessions ≡ t.sessions) _ _ (delete_messages (is_session id) c)
      (sessions_after t.sessions _ _ c same)
      (λ _ c1 e1.
        Ok-bind (λ (_ : ℕ) u. u.sessions ≡ t.sessions) _ _
          (delete_security_events (is_session id) c1) (sessions_after t.sessions _ _ c1 e1)
          (λ _ c2 e2.
            Ok-bind (λ (_ : ℕ) u. u.sessions ≡ t.sessions) _ _
              (delete_inject_events (is_session id) c2) (sessions_after t.sessions _ _ c2 e2)
              (λ _ c3 e3.
                Ok-bind (λ (_ : ℕ) u. u.sessions ≡ keep_unless (λ s. s.id == id) t.sessions) _ _
                  (delete_sessions (λ s. s.id == id) c3)
                  (sessions_after _ _ _ c3 (ap (keep_unless (λ s. s.id == id)) e3))
                  (λ _ c4 e4. e4))))

pub delete_session-Ok :
    (id : ℕ) (c : Conn Database)
    → any (λ s. s.id == id) c.tables.sessions ≡ true
    → Ok
        (λ (r : Option PruneStats) u.
          ((stats : PruneStats) × (r ≡ some stats))
          × (u.sessions ≡ keep_unless (λ s. s.id == id) c.tables.sessions))
        (delete_session id c)
unfolding delete_session delete_existing
delete_session-Ok id c there =
    Ok-bind (λ (b : Bool) t. (b ≡ any (λ s. s.id == id) c.tables.sessions) × (t ≡ c.tables)) _
      (delete_existing id) _ (statement-Ok (λ t. any (λ s. s.id == id) t.sessions) (λ t. t) c)
      (λ b d (found, same). existing b d (found ∙ there) same)
  where
    existing :
        (b : Bool) (d : Conn Database)
        → b ≡ true
        → d.tables ≡ c.tables
        → Ok
            (λ (r : Option PruneStats) u.
              ((stats : PruneStats) × (r ≡ some stats))
              × (u.sessions ≡ keep_unless (λ s. s.id == id) c.tables.sessions))
            (delete_existing id b d)
    existing true d _ same =
        Ok-bind (λ (_ : PruneStats) u. u.sessions ≡ keep_unless (λ s. s.id == id) c.tables.sessions)
          _ _ (in_immediate_txn (delete_session_rows id) d)
          (in_immediate_txn-Ok _ (delete_session_rows id) c.tables
            (delete_session_rows-Ok id c.tables) d same)
          (λ stats e gone. ((stats, refl), gone))
    existing false d wrong same = cc
