-- ===== src/Command/Prune/Dry.antt =====
-- A dry run of the command changes no row.
use mcpglass.Base.{
  ℕ, Option, none, some, List, [], ◌∷◌, ◌≡◌, refl, sym, ◌∙◌, Bool, true, false, Bool-cases, subst,
  inl, inr, leb,
}
use mcpglass.Base.Text.{Text}
use mcpglass.Base.Int.{ℤ, sub}
use mcpglass.Storage.Sql.{done, Conn, Sql, pure, ◌>>=◌, followed, statement, next_fault}
use mcpglass.Storage.Database.{Database}
use mcpglass.Storage.Prune.{PruneStats, count_rows, preview_sessions_before}
use mcpglass.Storage.Prune.MaxSize.{Pages, no_stats, add_assign, db_used_bytes}
use mcpglass.Storage.Prune.Estimate.{
  SessionSize, preview_session, session_size_estimates, preview_walk, preview_max_size,
}
use mcpglass.Command.Prune.{
  Args, Limit, absent, invalid, limit, read_size, then_go, prune_older, shrink, prune_larger,
  finish, realise, after_older, with_store, when_open, open_store, checked, run,
}

abbrev Reads : {A : Type 0} → Sql Database A → Type 0
Reads m = (c : Conn Database) → (m c).1.tables ≡ c.tables

statement-Reads : {A : Type 0} (a : Database → A) → Reads (statement (λ t. some (a t, t)))
unfolding statement
statement-Reads a c = elim (Bool-cases (next_fault c)) [
  | inl e ↦ rw (e, statement) refl
  | inr e ↦ rw (e, statement) refl
]

bind-Reads :
    {A B : Type 0} (m : Sql Database A) (k : A → Sql Database B)
    → Reads m
    → ((a : A) → Reads (k a))
    → Reads (m >>= k)
bind-Reads {A} {B} m k first later c = behind (m c) ∙ first c
  where
    behind : (r : Option A × Conn Database) → (followed k r).1.tables ≡ r.1.tables
    behind (none, d) = refl
    behind (some a, d) = later a d

count_rows-Reads : (f : Database → ℕ) → Reads (count_rows f)
unfolding count_rows
count_rows-Reads f = statement-Reads f

four_counts-Reads :
    (f g h i : Database → ℕ) (k : ℕ → ℕ → ℕ → ℕ → PruneStats)
    → Reads (
        count_rows f >>= λ a.
        count_rows g >>= λ b. count_rows h >>= λ c. count_rows i >>= λ d. pure (k a b c d))
four_counts-Reads f g h i k = bind-Reads (count_rows f) _ (count_rows-Reads f) (λ _.
    bind-Reads (count_rows g) _ (count_rows-Reads g) (λ _.
      bind-Reads (count_rows h) _ (count_rows-Reads h)
        (λ _. bind-Reads (count_rows i) _ (count_rows-Reads i) (λ _ c. refl))))

preview_sessions_before-Reads : (cutoff_ms : ℤ) → Reads (preview_sessions_before cutoff_ms)
unfolding preview_sessions_before
preview_sessions_before-Reads cutoff_ms = four_counts-Reads _ _ _ _ _

preview_session-Reads : (id : ℕ) → Reads (preview_session id)
unfolding preview_session
preview_session-Reads id = four_counts-Reads _ _ _ _ _

db_used_bytes-Reads : (pages : Pages) → Reads (db_used_bytes pages)
unfolding db_used_bytes
db_used_bytes-Reads pages =
    bind-Reads (count_rows pages.page_count) _ (count_rows-Reads pages.page_count) (λ _.
      bind-Reads (count_rows pages.freelist_count) _ (count_rows-Reads pages.freelist_count) (λ _.
        bind-Reads (count_rows pages.page_size) _ (count_rows-Reads pages.page_size) (λ _ c. refl)))

preview_walk-Reads :
    (byte_len : Text → ℕ) (target : ℕ) (sizes : List SessionSize) (remaining : ℕ) (acc : PruneStats)
    → Reads (preview_walk byte_len target sizes remaining acc)
unfolding preview_walk
preview_walk-Reads byte_len target [] remaining acc c = refl
preview_walk-Reads byte_len target (s ∷ ss) remaining acc c =
    elim (Bool-cases (leb remaining target)) [
      | inl e ↦ rw (e, preview_walk) refl
      | inr e ↦
          rw (e, preview_walk)
            (bind-Reads (preview_session s.id) _ (preview_session-Reads s.id)
              (λ stats. preview_walk-Reads byte_len target ss _ (add_assign acc stats)) c)
    ]

preview_max_size-Reads :
    (byte_len : Text → ℕ) (pages : Pages) (target : ℕ)
    → Reads (preview_max_size byte_len pages target)
unfolding preview_max_size session_size_estimates
preview_max_size-Reads byte_len pages target =
    bind-Reads (db_used_bytes pages) _ (db_used_bytes-Reads pages) (λ remaining.
      bind-Reads (session_size_estimates byte_len) _ (statement-Reads _)
        (λ sizes. preview_walk-Reads byte_len target sizes remaining no_stats))

read_size-Reads : (pages : Pages) (c : Conn Database) → (read_size pages c).tables ≡ c.tables
unfolding read_size
read_size-Reads pages c =
    bind-Reads (count_rows pages.page_count) _ (count_rows-Reads pages.page_count)
      (λ _.
        bind-Reads (count_rows pages.page_size) _ (count_rows-Reads pages.page_size) (λ _ c. refl))
      c

module _ (args : Args) (dry : args.dry_run ≡ true) where
  abbrev Spares : (Conn Database → ℕ × Conn Database) → Type 0
  Spares f = (c : Conn Database) → (f c).1.tables ≡ c.tables

  then_go-Spares :
      {A : Type 0} (next : Conn Database → ℕ × Conn Database) (m : Sql Database A)
      → Spares next
      → Reads m
      → Spares (λ c. then_go next (m c))
  unfolding then_go
  then_go-Spares {A} next m after reads c = behind (m c) ∙ reads c
    where
      behind : (r : Option A × Conn Database) → (then_go next r).1.tables ≡ r.1.tables
      behind (none, d) = refl
      behind (some a, d) = after d

  realise-Spares : (max_bytes : Limit) → Spares (realise args max_bytes)
  unfolding realise finish
  realise-Spares max_bytes c = rw (dry, realise) (read_size-Reads args.pages c)

  prune_older-Reads : (dur_ms : ℕ) → Reads (prune_older args dur_ms)
  unfolding prune_older
  prune_older-Reads dur_ms c =
      rw (dry, prune_older) (preview_sessions_before-Reads (sub args.now dur_ms) c)

  prune_larger-Reads : (target : ℕ) → Reads (prune_larger args target)
  unfolding prune_larger shrink
  prune_larger-Reads target c =
      subst (λ b. (shrink args b target c).1.tables ≡ c.tables) (sym dry)
        (bind-Reads (preview_max_size args.byte_len args.pages target) (λ _. pure done)
          (preview_max_size-Reads args.byte_len args.pages target) (λ _ c. refl) c)

  after_older-Spares : (max_bytes : Limit) → Spares (after_older args max_bytes)
  unfolding after_older
  after_older-Spares absent = realise-Spares absent
  after_older-Spares invalid = realise-Spares invalid
  after_older-Spares (limit n) =
      then_go-Spares (realise args (limit n)) (prune_larger args n) (realise-Spares (limit n))
        (prune_larger-Reads n)

  with_store-Spares : (dur max_bytes : Limit) → Spares (with_store args dur max_bytes)
  unfolding with_store
  with_store-Spares absent max_bytes = after_older-Spares max_bytes
  with_store-Spares invalid max_bytes = after_older-Spares max_bytes
  with_store-Spares (limit d) max_bytes =
      then_go-Spares (after_older args max_bytes) (prune_older args d)
        (after_older-Spares max_bytes) (prune_older-Reads d)

  when_open-Spares : (b : Bool) (dur max_bytes : Limit) → Spares (when_open args b dur max_bytes)
  unfolding when_open
  when_open-Spares true dur max_bytes c =
      with_store-Spares dur max_bytes (read_size args.pages c) ∙ read_size-Reads args.pages c
  when_open-Spares false dur max_bytes c = refl

  open_store-Spares : (dur max_bytes : Limit) → Spares (open_store args dur max_bytes)
  unfolding open_store
  open_store-Spares dur max_bytes = when_open-Spares args.opens dur max_bytes

  checked-Spares : (dur max_bytes : Limit) → Spares (checked args dur max_bytes)
  unfolding checked
  checked-Spares absent absent c = refl
  checked-Spares invalid max_bytes c = refl
  checked-Spares absent invalid c = refl
  checked-Spares (limit d) invalid c = refl
  checked-Spares absent (limit n) c = open_store-Spares absent (limit n) c
  checked-Spares (limit d) absent c = open_store-Spares (limit d) absent c
  checked-Spares (limit d) (limit n) c = open_store-Spares (limit d) (limit n) c

  -- In a dry run, whatever the other arguments, the values given for them and the statements that
  -- fail: the command changes no table.
  pub run-Spares : Spares (run args)
  unfolding run
  run-Spares c = checked-Spares _ _ c
