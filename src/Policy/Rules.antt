-- ===== src/Policy/Rules.antt =====
-- `matches_rule` and `deny_reason`: the deny and allow lists.
pub mod Correct
use mcpglass.Base.{
  ℕ, List, [], ◌∷◌, ◌++◌, Bool, true, false, if◌then◌else◌, Option, none, some, any, ◌==◌,
}
use mcpglass.Base.Text.{Text, text_eq, starts_with}

-- `pat.strip_suffix('*')`: what stands before a trailing star.
unfoldable pub strip_star : Text → Option Text
strip_star [] = none
strip_star (c ∷ []) = if c == b'*' then some [] else none
strip_star (c ∷ d ∷ cs) = elim (strip_star (d ∷ cs)) [ none ↦ none | some p ↦ some (c ∷ p) ]

-- A trailing `*` is a prefix wildcard, otherwise the comparison is exact.
unfoldable pub matches_rule : Text → Text → Bool
matches_rule pat name = elim (strip_star pat) [
  | some prefix ↦ starts_with prefix name
  | none ↦ text_eq name pat
]

pub data DenyReason : Type 0 where
  deny_list : Text → DenyReason
  not_allowed : DenyReason

-- `policy.deny.iter().find(|pat| matches_rule(pat, n))`.
unfoldable pub find_rule : List Text → Text → Option Text
find_rule [] n = none
find_rule (pat ∷ pats) n = if matches_rule pat n then some pat else find_rule pats n

-- `if let Some(n) = name { .. find .. }`: the deny list only applies to a named tool.
unfoldable pub denied_by : List Text → Option Text → Option Text
denied_by deny none = none
denied_by deny (some n) = find_rule deny n

-- `matches!(name, Some(n) if policy.allow.iter().any(|a| a == n))`.
unfoldable pub is_allowed : List Text → Option Text → Bool
is_allowed allow none = false
is_allowed allow (some n) = any (λ a. text_eq a n) allow

-- An empty allow list is not active.
unfoldable pub allow_reason : List Text → Option Text → Option DenyReason
allow_reason [] name = none
allow_reason (a ∷ as') name = if is_allowed (a ∷ as') name then none else some not_allowed

-- The deny list takes priority.
unfoldable pub deny_reason : List Text → List Text → Option Text → Option DenyReason
deny_reason deny allow name = elim (denied_by deny name) [
  | some pat ↦ some (deny_list pat)
  | none ↦ allow_reason allow name
]
