-- ===== src/Storage/Sql.antt =====
-- What crates/storage/src/lib.rs relies on of its SQLite connection: statements that fail or take
-- effect as a whole, and one transaction at a time.
use mcpglass.Base.{Option, none, some, List, [], ◌∷◌, Bool, true, false}
pub mod Writes

pub data Done : Type 0 where
  done : Done

-- A connection over tables of type `T`: `saved` is what a `ROLLBACK` goes back to while a
-- transaction is open, and `faults` says for each statement to come whether the disk fails it
-- (behind the end of the list none fails).
pub record Conn (T : Type 0) : Type 0 where
  pub tables : T
  pub saved : Option T
  pub faults : List Bool

-- A fallible operation on the connection; an error leaves the effects of what ran before it.
abbrev pub Sql : Type 0 → Type 0 → Type 0
Sql T A = Conn T → Option A × Conn T

abbrev pub pure : {T A : Type 0} → A → Sql T A
pure a c = (some a, c)

-- `?` behind a statement.
abbrev pub followed : {T A B : Type 0} → (A → Sql T B) → Option A × Conn T → Option B × Conn T
followed f (none, c) = (none, c)
followed f (some a, c) = f a c

infixl 5 ◌>>=◌
abbrev pub ◌>>=◌ : {T A B : Type 0} → Sql T A → (A → Sql T B) → Sql T B
◌>>=◌ m f c = followed f (m c)

infixl 5 ◌>>◌
abbrev pub ◌>>◌ : {T A B : Type 0} → Sql T A → Sql T B → Sql T B
m >> k = m >>= λ _. k

abbrev pub next_fault : {T : Type 0} → Conn T → Bool
next_fault c = elim c.faults [ [] ↦ false | b ∷ bs ↦ b ]

abbrev pub spent : {T : Type 0} → Conn T → Conn T
spent c = record c { faults = elim c.faults [ [] ↦ [] | b ∷ bs ↦ bs ] }

-- One statement: `none` for a violated constraint.
unfoldable pub statement : {T A : Type 0} → (T → Option (A × T)) → Sql T A
statement f c = elim (next_fault c) [
  | true ↦ (none, spent c)
  | false ↦ elim (f c.tables) [
    | none ↦ (none, spent c)
    | some (a, t) ↦ (some a, record (spent c) { tables = t })
  ]
]

-- `BEGIN IMMEDIATE`, refused inside a transaction.
unfoldable pub begin : {T : Type 0} → Sql T Done
begin c = elim (next_fault c) [
  | true ↦ (none, spent c)
  | false ↦ elim c.saved [
    | none ↦ (some done, record (spent c) { saved = some c.tables })
    | some t ↦ (none, spent c)
  ]
]

unfoldable pub commit : {T : Type 0} → Sql T Done
commit c = elim (next_fault c) [
  | true ↦ (none, spent c)
  | false ↦ (some done, record (spent c) { saved = none })
]

-- `ROLLBACK`, whose own result is ignored.
unfoldable pub rollback : {T : Type 0} → Conn T → Conn T
rollback c = elim c.saved [ none ↦ c | some t ↦ record c { tables = t; saved = none } ]
