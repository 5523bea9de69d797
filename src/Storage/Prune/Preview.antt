-- ===== src/Storage/Prune/Preview.antt =====
-- The dry run of a pruning and the pruning itself.
use mcpglass.Base.{
  ℕ, none, some, List, [], ◌∷◌, ◌≡◌, refl, Bool, Bool-cases, false, ◌&&◌, ◌==◌, any, Any, Deleted,
  no_more, gone, stays, inl, inr, ==_iff, true, arith,
}
use mcpglass.Base.Int.{ℤ, Less, int_lt_iff}
use mcpglass.Storage.Sql.{Conn, statement, begin, commit}
use mcpglass.Storage.Database.{SessionRow, MessageRow, Database}
use mcpglass.Event.{SecurityEvent, InjectEvent}
use mcpglass.Storage.Prune.{
  PruneStats, keep_unless, count_where, delete_messages, delete_security_events,
  delete_inject_events, delete_sessions, count_rows, committed, settle_txn, in_immediate_txn,
  is_before, is_of_session_before, prune_rows, prune_sessions_before, preview_sessions_before,
}

-- A connection on which the disk fails nothing.
abbrev pub sound : Database → Conn Database
sound t = record { tables = t; saved = none; faults = [] }

abbrev pub nothing : PruneStats
nothing = record { sessions = 0; messages = 0; security_events = 0; inject_events = 0 }

count_where-keep_unless :
    {A : Type 0} (p : A → Bool) (xs : List A) → count_where p (keep_unless p xs) ≡ 0
unfolding count_where keep_unless
count_where-keep_unless p [] = refl
count_where-keep_unless p (x ∷ xs) = ground (arith, count_where-keep_unless p xs)

count_where_none :
    {A : Type 0} (p : A → Bool) (xs : List A) → ((x : A) → p x ≡ false) → count_where p xs ≡ 0
unfolding count_where
count_where_none p [] none_at = refl
count_where_none p (x ∷ xs) none_at = rw (none_at x) (count_where_none p xs none_at)

-- No session that is left is of those that were to go.
any-keep_unless :
    (cutoff_ms : ℤ) (id : ℕ) (ss : List SessionRow)
    → any (λ s. is_before cutoff_ms s && s.id == id) (keep_unless (is_before cutoff_ms) ss) ≡ false
unfolding keep_unless
any-keep_unless cutoff_ms id [] = refl
any-keep_unless cutoff_ms id (s ∷ ss) = elim (Bool-cases (is_before cutoff_ms s)) [
  | inl y ↦ rw y (any-keep_unless cutoff_ms id ss)
  | inr n ↦ rw n (rw n (any-keep_unless cutoff_ms id ss))
]

-- A dry run counts nothing on tables that hold no session before the cutoff.
preview_nothing :
    (cutoff_ms : ℤ) (t : Database)
    → count_where (is_before cutoff_ms) t.sessions ≡ 0
    → ((id : ℕ) → is_of_session_before cutoff_ms t id ≡ false)
    → (preview_sessions_before cutoff_ms (sound t)).0 ≡ some nothing
unfolding preview_sessions_before count_rows statement
preview_nothing cutoff_ms t none_left no_session =
    let m : count_where (λ r. is_of_session_before cutoff_ms t r.session_id) t.messages ≡ 0 =
      count_where_none _ t.messages (λ (r : MessageRow). no_session r.session_id) in
    let e : count_where (λ r. is_of_session_before cutoff_ms t r.0) t.security_events ≡ 0 =
      count_where_none _ t.security_events (λ (r : ℕ × SecurityEvent). no_session r.0) in
    let f : count_where (λ r. is_of_session_before cutoff_ms t r.0) t.inject_events ≡ 0 =
      count_where_none _ t.inject_events (λ (r : ℕ × InjectEvent). no_session r.0) in
    λ i. some (record {
      sessions = none_left i;
      messages = m i;
      security_events = e i;
      inject_events = f i;
    })

keep_unless-Deleted :
    {A : Type 0} {Goes Stays : A → Type 0} (p : A → Bool)
    → ((x : A) → p x ≡ true → Goes x)
    → ((x : A) → p x ≡ false → Stays x)
    → (xs : List A) → Deleted Goes Stays xs (keep_unless p xs) (count_where p xs)
unfolding keep_unless count_where
keep_unless-Deleted p goes stays_if [] = no_more
keep_unless-Deleted p goes stays_if (x ∷ xs) = elim (Bool-cases (p x)) [
  | inl y ↦ rw y (gone (goes x y) (keep_unless-Deleted p goes stays_if xs))
  | inr n ↦ rw n (stays (stays_if x n) (keep_unless-Deleted p goes stays_if xs))
]

-- A session that started before the cutoff, and the id of one.
abbrev pub IsOld : ℤ → SessionRow → Type 0
IsOld cutoff_ms s = Less s.started_at_ms cutoff_ms

abbrev pub OfOld : ℤ → List SessionRow → ℕ → Type 0
OfOld cutoff_ms ss id = Any (λ s. IsOld cutoff_ms s × (s.id ≡ id)) ss

is_before-IsOld :
    (cutoff_ms : ℤ) (s : SessionRow) → is_before cutoff_ms s ≡ true → IsOld cutoff_ms s
unfolding is_before
is_before-IsOld cutoff_ms s h = (int_lt_iff s.started_at_ms cutoff_ms).0 h

is_before-not :
    (cutoff_ms : ℤ) (s : SessionRow) → is_before cutoff_ms s ≡ false → ¬ IsOld cutoff_ms s
unfolding is_before
is_before-not cutoff_ms s h old = let yes = (int_lt_iff s.started_at_ms cutoff_ms).1 old in cc

any-OfOld :
    (cutoff_ms : ℤ) (id : ℕ) (ss : List SessionRow)
    → any (λ s. is_before cutoff_ms s && s.id == id) ss ≡ true
    → OfOld cutoff_ms ss id
any-OfOld cutoff_ms id [] h = absurd (wrong h)
  where
    wrong : false ≡ true → ⊥
    wrong q = cc
any-OfOld cutoff_ms id (s ∷ ss) h = elim (Bool-cases (is_before cutoff_ms s)) [
  | inl y ↦ elim (Bool-cases (s.id == id)) [
    | inl e ↦ inl (is_before-IsOld cutoff_ms s y, (==_iff s.id id).0 e)
    | inr n ↦ inr (any-OfOld cutoff_ms id ss (ground (arith, h, n)))
  ]
  | inr n ↦ inr (any-OfOld cutoff_ms id ss (ground (arith, h, n)))
]

any-not :
    (cutoff_ms : ℤ) (id : ℕ) (ss : List SessionRow)
    → any (λ s. is_before cutoff_ms s && s.id == id) ss ≡ false
    → ¬ OfOld cutoff_ms ss id
any-not cutoff_ms id [] h old = old
any-not cutoff_ms id (s ∷ ss) h (inl (old, e)) =
    is_before-not cutoff_ms s (ground (arith, h, e, (==_iff s.id id).1 e)) old
any-not cutoff_ms id (s ∷ ss) h (inr old) = any-not cutoff_ms id ss (ground (arith, h)) old

-- The children of the old sessions go, and no others.
abbrev pub ChildrenDeleted :
    {A : Type 0} → ℤ → List SessionRow → (A → ℕ) → List A → List A → ℕ → Type 0
ChildrenDeleted cutoff_ms ss session_of =
    Deleted (λ r. OfOld cutoff_ms ss (session_of r)) (λ r. ¬ OfOld cutoff_ms ss (session_of r))

children :
    {A : Type 0} (cutoff_ms : ℤ) (t : Database) (session_of : A → ℕ) (xs : List A)
    → ChildrenDeleted cutoff_ms t.sessions session_of xs
        (keep_unless (λ r. is_of_session_before cutoff_ms t (session_of r)) xs)
        (count_where (λ r. is_of_session_before cutoff_ms t (session_of r)) xs)
unfolding is_of_session_before
children cutoff_ms t session_of xs =
    keep_unless-Deleted (λ r. is_of_session_before cutoff_ms t (session_of r))
      (λ r. any-OfOld cutoff_ms (session_of r) t.sessions)
      (λ r. any-not cutoff_ms (session_of r) t.sessions) xs

-- What a pruning does to the tables, with the numbers that it reports.
pub record Pruned (cutoff_ms : ℤ) (t t' : Database) (stats : PruneStats) : Type 0 where
  pub sessions :
      Deleted (IsOld cutoff_ms) (λ s. ¬ IsOld cutoff_ms s) t.sessions t'.sessions stats.sessions
  pub messages :
      ChildrenDeleted cutoff_ms t.sessions
        (λ (r : MessageRow). r.session_id)
        t.messages
        t'.messages
        stats.messages
  pub security_events :
      ChildrenDeleted cutoff_ms t.sessions
        (λ (r : ℕ × SecurityEvent). r.0)
        t.security_events
        t'.security_events
        stats.security_events
  pub inject_events :
      ChildrenDeleted cutoff_ms t.sessions
        (λ (r : ℕ × InjectEvent). r.0)
        t.inject_events
        t'.inject_events
        stats.inject_events

-- With no fault of the disk, a pruning deletes the sessions that started before the cutoff, and the
-- messages and events of those sessions; all other rows of these tables stay, in order. The numbers
-- that it reports are those of the deleted rows of each kind, its dry run reports the same ones, and
-- behind the pruning a dry run with the same cutoff counts none.
pub prune-preview :
    (cutoff_ms : ℤ) (t : Database)
    → let pruned = prune_sessions_before cutoff_ms (sound t) in
      (stats : PruneStats) × (pruned.0 ≡ some stats)
      × ((preview_sessions_before cutoff_ms (sound t)).0 ≡ some stats)
      × Pruned cutoff_ms t pruned.1.tables stats
      × ((preview_sessions_before cutoff_ms pruned.1).0 ≡ some nothing)
unfolding prune_sessions_before prune_rows in_immediate_txn begin settle_txn committed commit
    statement preview_sessions_before count_rows delete_messages delete_security_events
    delete_inject_events delete_sessions is_of_session_before
prune-preview cutoff_ms t = (
  _,
  refl,
  refl,
  record {
    sessions =
        keep_unless-Deleted (is_before cutoff_ms) (is_before-IsOld cutoff_ms)
          (is_before-not cutoff_ms) t.sessions;
    messages = children cutoff_ms t (λ (r : MessageRow). r.session_id) t.messages;
    security_events = children cutoff_ms t (λ (r : ℕ × SecurityEvent). r.0) t.security_events;
    inject_events = children cutoff_ms t (λ (r : ℕ × InjectEvent). r.0) t.inject_events;
  },
  preview_nothing cutoff_ms (prune_sessions_before cutoff_ms (sound t)).1.tables
      (count_where-keep_unless (is_before cutoff_ms) t.sessions)
      (λ id. any-keep_unless cutoff_ms id t.sessions),
)
