-- ===== src/Tap/Pending.antt =====
-- `PendingToolsList` and `PendingInitialize` of crates/cli/src/tap.rs: the requests that wait for
-- their response. Both are the same code over a map from ids, of times for the one and of times with
-- the proposed version for the other. The list stands for the hash map in its order of iteration.
use mcpglass.Base.{
  ℕ, Option, none, some, List, [], ◌∷◌, Bool, true, false, not, ◌||◌, ◌&&◌, leb, if◌then◌else◌,
  length, any,
}
use mcpglass.Base.Text.{Text, text_eq}
use mcpglass.Base.Int.{ℤ, int_lt}
pub mod Bounds

-- What is kept of a request: its time, for the eviction, and a value.
pub record Waiting (A : Type 0) : Type 0 where
  pub ts_ms : ℤ
  pub value : A

abbrev pub Pending : Type 0 → Type 0
Pending A = List (Text × Waiting A)

abbrev pub cap : ℕ
cap = 1024

unfoldable pub contains_key : {A : Type 0} → Text → Pending A → Bool
contains_key id [] = false
contains_key id (e ∷ es) = text_eq id e.0 || contains_key id es

unfoldable pub find_value : {A : Type 0} → Text → Pending A → Option A
find_value id [] = none
find_value id (e ∷ es) = if text_eq id e.0 then some e.1.value else find_value id es

-- `HashMap::remove`, and `invalidate`.
unfoldable pub remove : {A : Type 0} → Text → Pending A → Pending A
remove id [] = []
remove id (e ∷ es) = if text_eq id e.0 then remove id es else e ∷ remove id es

-- `min_by_key(|(_, &ts)| ts)`: the first of the entries with the least time.
unfoldable pub oldest : {A : Type 0} → Text × Waiting A → Pending A → Text
oldest e [] = e.0
oldest e (f ∷ fs) = if int_lt f.1.ts_ms e.1.ts_ms then oldest f fs else oldest e fs

unfoldable pub evict : {A : Type 0} → Pending A → Pending A
evict [] = []
evict (e ∷ es) = remove (oldest e es) (e ∷ es)

unfoldable pub note_request : {A : Type 0} → Text → ℤ → A → Pending A → Pending A
note_request {A} id ts_ms value inner =
    let entry : Text × Waiting A = (id, record { ts_ms = ts_ms; value = value }) in
    if not (contains_key id inner) && leb cap (length inner)
    then entry ∷ remove id (evict inner)
    else entry ∷ remove id inner

unfoldable pub take : {A : Type 0} → Text → Pending A → Option A × Pending A
take id inner = (find_value id inner, remove id inner)
