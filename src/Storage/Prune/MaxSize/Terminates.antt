-- ===== src/Storage/Prune/MaxSize/Terminates.antt =====
-- Pruning to a size ends, with the size reached or no session left.
use mcpglass.Base.{
  ℕ, ◌≤◌, ◌<◌, zero, suc, arith, Option, none, some, Option-cases, List, [], ◌∷◌, ◌≡◌, ◌⊎◌, inl,
  inr, refl, sym, ap, ◌∙◌, subst, Bool, true, false, Bool-cases, ◌==◌, ==_iff, leb, leb_iff, length,
  ◌||◌, any,
}
use mcpglass.Storage.Sql.{Conn, statement}
use mcpglass.Storage.Database.{SessionRow, Database}
use mcpglass.Storage.Prune.{PruneStats, keep_unless, count_rows, delete_session}
use mcpglass.Storage.Prune.MaxSize.{
  Pages, no_stats, add_assign, is_older, older_of, oldest_row, id_of, oldest_session, used_bytes,
  db_used_bytes, after_delete, drop_oldest, unless_small, Loop, prune_loop, prune_to_max_size,
}
use mcpglass.Storage.Prune.Sessions.{Ok, Ok-bind, statement-Ok, delete_session-Ok}

module _ (id : ℕ) where
  length-keep_unless :
      (ss : List SessionRow) → length (keep_unless (λ s. s.id == id) ss) ≤ length ss
  unfolding keep_unless
  length-keep_unless [] = omega arith
  length-keep_unless (s ∷ ss) = ground (arith, length-keep_unless ss)

  keep_unless_shorter :
      (ss : List SessionRow)
      → any (λ s. s.id == id) ss ≡ true
      → length (keep_unless (λ s. s.id == id) ss) < length ss
  unfolding keep_unless
  keep_unless_shorter [] h = cc
  keep_unless_shorter (s ∷ ss) h = elim (Bool-cases (s.id == id)) [
    | inl e ↦ rw (e, keep_unless) (omega (arith, length-keep_unless ss))
    | inr e ↦ rw (e, keep_unless) (omega (arith, keep_unless_shorter ss (rw e at h)))
  ]

older_of-either :
    (s : SessionRow) (o : Option SessionRow) → (older_of s o ≡ s) ⊎ (o ≡ some (older_of s o))
unfolding older_of
older_of-either s none = inl refl
older_of-either s (some t) = elim (Bool-cases (is_older t s)) [
  | inl e ↦ inr (rw (e, older_of) refl)
  | inr e ↦ inl (rw (e, older_of) refl)
]

or_left : (a b : Bool) → a ≡ true → (a || b) ≡ true
or_left true b h = refl
or_left false b h = cc

or_right : (a b : Bool) → b ≡ true → (a || b) ≡ true
or_right true b h = refl
or_right false b h = h

oldest_row-any :
    (ss : List SessionRow) (t : SessionRow)
    → oldest_row ss ≡ some t
    → any (λ s. s.id == t.id) ss ≡ true
unfolding oldest_row
oldest_row-any [] t h = cc
oldest_row-any (s ∷ ss) t h = elim (older_of-either s (oldest_row ss)) [
  | inl e ↦ or_left _ _ ((==_iff s.id t.id).1 (ap (λ r. r.id) (sym e ∙ some_injective h)))
  | inr e ↦ or_right _ _ (oldest_row-any ss t (e ∙ h))
]
  where
    some_injective : {a b : SessionRow} → some a ≡ some b → a ≡ b
    some_injective q = cc

id_of-none : (ss : List SessionRow) → none ≡ id_of (oldest_row ss) → ss ≡ []
unfolding oldest_row id_of
id_of-none [] h = refl
id_of-none (s ∷ ss) h = cc

id_of-some :
    (ss : List SessionRow) (id : ℕ)
    → some id ≡ id_of (oldest_row ss)
    → any (λ s. s.id == id) ss ≡ true
unfolding id_of
id_of-some ss id h = elim (Option-cases (oldest_row ss)) [
  | inl e ↦ absurd (differ (rw (e, id_of) at h))
  | inr (t, e) ↦
      subst (λ n. any (λ s. s.id == n) ss ≡ true) (same (rw (e, id_of) at h))
        (oldest_row-any ss t e)
]
  where
    differ : {n : ℕ} → some n ≡ none → ⊥
    differ q = cc

    same : {n m : ℕ} → some n ≡ some m → m ≡ n
    same q = cc

count_rows-Ok :
    (f : Database → ℕ) (t : Database) (c : Conn Database)
    → c.tables ≡ t
    → Ok (λ n u. (n ≡ f t) × (u ≡ t)) (count_rows f c)
unfolding count_rows
count_rows-Ok f t c e =
    subst (λ v. Ok (λ n u. (n ≡ f v) × (u ≡ v)) (statement (λ t. some (f t, t)) c)) e
      (statement-Ok f (λ t. t) c)

module _ (pages : Pages) (target_bytes : ℕ) where
  -- The size is reached, or no session is left.
  abbrev pub Reached : Option PruneStats → Database → Type 0
  Reached r t =
      ((stats : PruneStats) × (r ≡ some stats))
      × ((used_bytes pages t ≤ target_bytes) ⊎ (t.sessions ≡ []))

  db_used_bytes-Ok :
      (c : Conn Database)
      → Ok (λ used t. (used ≡ used_bytes pages c.tables) × (t ≡ c.tables)) (db_used_bytes pages c)
  unfolding db_used_bytes used_bytes
  db_used_bytes-Ok c =
      let t = c.tables in
      Ok-bind (λ n u. (n ≡ pages.page_count t) × (u ≡ t)) _ _ (count_rows pages.page_count c)
        (count_rows-Ok pages.page_count t c refl)
        (λ n c1 (e1, t1).
          Ok-bind (λ n u. (n ≡ pages.freelist_count t) × (u ≡ t)) _ _
            (count_rows pages.freelist_count c1) (count_rows-Ok pages.freelist_count t c1 t1)
            (λ m c2 (e2, t2).
              Ok-bind (λ n u. (n ≡ pages.page_size t) × (u ≡ t)) _ _ (count_rows pages.page_size c2)
                (count_rows-Ok pages.page_size t c2 t2) (λ k c3 (e3, t3). (cc (e1, e2, e3), t3))))

  module _ (fuel : ℕ) (next : Loop)
      (ih : (acc : PruneStats) (c : Conn Database)
        → length c.tables.sessions < fuel
        → Ok Reached (next acc c)) where
    after_delete-Ok :
        (acc : PruneStats) (r : Option PruneStats) (c : Conn Database)
        → (stats : PruneStats) × (r ≡ some stats)
        → length c.tables.sessions < fuel
        → Ok Reached (after_delete next acc r c)
    unfolding after_delete
    after_delete-Ok acc none c (stats, e) h = cc
    after_delete-Ok acc (some s) c e h = ih (add_assign acc s) c h

    drop_oldest-Ok :
        (acc : PruneStats) (o : Option ℕ) (c : Conn Database)
        → o ≡ id_of (oldest_row c.tables.sessions)
        → length c.tables.sessions < suc fuel
        → Ok Reached (drop_oldest next acc o c)
    unfolding drop_oldest
    drop_oldest-Ok acc none c e h = ((acc, refl), inr (id_of-none c.tables.sessions e))
    drop_oldest-Ok acc (some id) c e h =
        let there = id_of-some c.tables.sessions id e in
        Ok-bind
          (λ (r : Option PruneStats) u.
            ((stats : PruneStats) × (r ≡ some stats))
            × (u.sessions ≡ keep_unless (λ s. s.id == id) c.tables.sessions))
          Reached (after_delete next acc) (delete_session id c) (delete_session-Ok id c there)
          (λ r d (is, gone). after_delete-Ok acc r d is (
            subst (λ ss. length ss < fuel) (sym gone)
              (omega (arith, h, keep_unless_shorter id c.tables.sessions there))))

    unless_small-Ok :
        (acc : PruneStats) (b : Bool) (c : Conn Database)
        → leb (used_bytes pages c.tables) target_bytes ≡ b
        → length c.tables.sessions < suc fuel
        → Ok Reached (unless_small next acc b c)
    unfolding unless_small oldest_session
    unless_small-Ok acc true c e h =
        ((acc, refl), inl ((leb_iff (used_bytes pages c.tables) target_bytes).0 e))
    unless_small-Ok acc false c e h =
        Ok-bind (λ o t. (o ≡ id_of (oldest_row c.tables.sessions)) × (t ≡ c.tables)) Reached
          (drop_oldest next acc) _ (statement-Ok (λ t. id_of (oldest_row t.sessions)) (λ t. t) c)
          (λ o d (is, same).
            drop_oldest-Ok acc o d (is ∙ ap (λ t. id_of (oldest_row t.sessions)) (sym same))
              (subst (λ t. length t.sessions < suc fuel) (sym same) h))

  prune_loop-Ok :
      (fuel : ℕ) (acc : PruneStats) (c : Conn Database)
      → length c.tables.sessions < fuel
      → Ok Reached (prune_loop pages target_bytes fuel acc c)
  unfolding prune_loop
  prune_loop-Ok zero acc c h = absurd (omega (arith, h))
  prune_loop-Ok (suc fuel) acc c h =
      Ok-bind (λ used t. (used ≡ used_bytes pages c.tables) × (t ≡ c.tables)) Reached _
        (db_used_bytes pages c) (db_used_bytes-Ok c)
        (λ used d (is, same).
          unless_small-Ok fuel (prune_loop pages target_bytes fuel) (prune_loop-Ok fuel) acc
            (leb used target_bytes) d
            (ap (λ n. leb n target_bytes) (ap (used_bytes pages) same ∙ sym is))
            (subst (λ t. length t.sessions < suc fuel) (sym same) h))

  -- Whichever statements fail: the loop ends within one round more than there are sessions. If no
  -- statement failed it, the size is reached or no session is left.
  pub prune_to_max_size-Ok :
      (c : Conn Database) → Ok Reached (prune_to_max_size pages target_bytes c)
  unfolding prune_to_max_size
  prune_to_max_size-Ok c = prune_loop-Ok (suc (length c.tables.sessions)) no_stats c (omega arith)
