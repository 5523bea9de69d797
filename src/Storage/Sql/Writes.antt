-- ===== src/Storage/Sql/Writes.antt =====
-- A property of the tables under a statement that violates no constraint.
use mcpglass.Base.{Option, none, some, true, false}
use mcpglass.Storage.Sql.{Conn, statement, spent, next_fault}

pub write_keeps :
    {T A : Type 0} (P : T → Type 0) (a : T → A) (g : T → T) (c : Conn T)
    → P c.tables
    → P (g c.tables)
    → P (statement (λ t. some (a t, g t)) c).1.tables
unfolding statement
write_keeps {T} {A} P a g c before after =
    elim (next_fault c)
      as (λ b.
        P
          (elim b as (λ _. Option A × Conn T) [
            | true ↦ (none, spent c)
            | false ↦ (some (a c.tables), record (spent c) { tables = g c.tables })
          ]).1.tables) [ true ↦ before | false ↦ after ]
