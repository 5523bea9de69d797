-- ===== src/Policy/Rules/Correct.antt =====
-- What the deny and allow lists mean.
use mcpglass.Base.{
  List, [], ◌∷◌, ◌++◌, ◌≡◌, ◌≢◌, ◌↔◌, ◌⊎◌, inl, inr, refl, ap, ◌∙◌, true, false, arith, Option,
  none, some, Option-cases, Bool-cases,
}
use mcpglass.Base.Text.{Text, text_eq, text_eq_iff, starts_with_iff}
use mcpglass.Policy.Rules.{
  DenyReason, deny_list, strip_star, matches_rule, find_rule, denied_by, is_allowed, allow_reason,
  deny_reason,
}

strip_star_sound : (pat p : Text) → strip_star pat ≡ some p → pat ≡ p ++ b'*' ∷ []
unfolding strip_star
strip_star_sound [] p h = cc
strip_star_sound (c ∷ []) p h = ground arith
strip_star_sound (c ∷ d ∷ cs) p h = elim (Option-cases (strip_star (d ∷ cs))) [
  | inl e ↦ ground arith
  | inr (q, e) ↦ ground (arith, strip_star_sound (d ∷ cs) q e)
]

strip_star-append : (p : Text) → strip_star (p ++ b'*' ∷ []) ≡ some p
unfolding strip_star
strip_star-append [] = refl
strip_star-append (c ∷ []) = refl
strip_star-append (c ∷ d ∷ cs) = rw (strip_star-append (d ∷ cs))

-- What a deny rule covers: with a trailing star the names that begin with what stands before it,
-- otherwise the one name.
pub data Covers (pat name : Text) : Type 0 where
  wildcard :
      (prefix rest : Text) → pat ≡ prefix ++ b'*' ∷ [] → name ≡ prefix ++ rest → Covers pat name
  exact : ((prefix : Text) → pat ≢ prefix ++ b'*' ∷ []) → name ≡ pat → Covers pat name

Covers-of_match : (pat name : Text) → matches_rule pat name ≡ true → Covers pat name
unfolding matches_rule
Covers-of_match pat name h = elim (Option-cases (strip_star pat)) [
  | inl e ↦
      exact (λ p q. cc (e, ap strip_star q, strip_star-append p))
        ((text_eq_iff name pat).0 (ground arith))
  | inr (p, e) ↦
      let (rest, s) = (starts_with_iff p name).0 (ground arith) in
      wildcard p rest (strip_star_sound pat p e) s
]

match_of_Covers : (pat name : Text) → Covers pat name → matches_rule pat name ≡ true
unfolding matches_rule
match_of_Covers pat name (wildcard p rest e s) =
    rw (ap strip_star e ∙ strip_star-append p, matches_rule) ((starts_with_iff p name).1 (rest, s))
match_of_Covers pat name (exact no_star s) = elim (Option-cases (strip_star pat)) [
  | inl e ↦ rw (e, matches_rule) ((text_eq_iff name pat).1 s)
  | inr (p, e) ↦ absurd (no_star p (strip_star_sound pat p e))
]

-- A rule matches a tool name exactly when it ends in a star and the name begins with what stands
-- before that star, or it does not end in a star and is the name.
pub matches_rule-Covers : (pat name : Text) → (matches_rule pat name ≡ true) ↔ Covers pat name
matches_rule-Covers pat name = (Covers-of_match pat name, match_of_Covers pat name)

-- The tool name is on the list.
abbrev pub Listed : Text → List Text → Type 0
Listed n [] = ⊥
Listed n (a ∷ rest) = (a ≡ n) ⊎ Listed n rest

-- No rule of the list covers the name.
abbrev pub Clear : List Text → Text → Type 0
Clear [] n = Unit
Clear (pat ∷ pats) n = (¬ Covers pat n) × Clear pats n

find_rule-Clear : (pats : List Text) (n : Text) → (find_rule pats n ≡ none) ↔ Clear pats n
unfolding find_rule
find_rule-Clear [] n = (λ _. tt, λ _. refl)
find_rule-Clear (pat ∷ pats) n = elim (Bool-cases (matches_rule pat n)) [
  | inl e ↦ (λ h. cc (e, h), λ h. absurd (h.0 ((matches_rule-Covers pat n).0 e)))
  | inr e ↦
      let ih = find_rule-Clear pats n in
      (λ h. (λ c. cc (e, (matches_rule-Covers pat n).1 c), ih.0 (rw e at h)), λ h. rw e (ih.1 h.1))
]

mem_of_any : (allow : List Text) (n : Text) → (is_allowed allow (some n) ≡ true) ↔ Listed n allow
unfolding is_allowed
mem_of_any [] n = (λ h. cc, λ h. elim h [ ])
mem_of_any (a ∷ rest) n = elim (Bool-cases (text_eq a n)) [
  | inl e ↦ (λ h. inl ((text_eq_iff a n).0 e), λ h. rw e)
  | inr e ↦
      let ih = mem_of_any rest n in
      (λ h. inr (ih.0 (rw e at h)), λ h. rw e (ih.1 (listed_later e h)))
]
  where
    listed_later : text_eq a n ≡ false → Listed n (a ∷ rest) → Listed n rest
    listed_later e (inl q) = cc (e, (text_eq_iff a n).1 q)
    listed_later e (inr l) = l

-- No deny rule covers the tool name; a call with no tool name is covered by none.
abbrev pub Undenied : List Text → Option Text → Type 0
Undenied deny none = Unit
Undenied deny (some n) = Clear deny n

-- The allow list is empty, or it has the tool name; a call with no tool name is on no list.
abbrev pub Allows : List Text → Option Text → Type 0
Allows [] name = Unit
Allows (a ∷ rest) none = ⊥
Allows (a ∷ rest) (some n) = Listed n (a ∷ rest)

denied_by-Undenied :
    (deny : List Text) (name : Option Text) → (denied_by deny name ≡ none) ↔ Undenied deny name
unfolding denied_by
denied_by-Undenied deny none = (λ _. tt, λ _. refl)
denied_by-Undenied deny (some n) = find_rule-Clear deny n

allow_reason-Allows :
    (allow : List Text) (name : Option Text) → (allow_reason allow name ≡ none) ↔ Allows allow name
unfolding allow_reason
allow_reason-Allows [] name = (λ _. tt, λ _. refl)
allow_reason-Allows (a ∷ rest) none = (λ h. unfold is_allowed in cc, λ h. elim h [ ])
allow_reason-Allows (a ∷ rest) (some n) = elim (Bool-cases (is_allowed (a ∷ rest) (some n))) [
  | inl e ↦ (λ _. (mem_of_any (a ∷ rest) n).0 e, λ _. rw e)
  | inr e ↦ (λ h. cc (e, h), λ h. cc ((mem_of_any (a ∷ rest) n).1 h))
]

-- A call is refused by neither list exactly when no deny rule covers its tool name and the allow
-- list, if it is not empty, has that name. So an active allow list refuses a call without a name,
-- and the deny list never does.
pub deny_reason-permits :
    (deny allow : List Text) (name : Option Text)
    → (deny_reason deny allow name ≡ none) ↔ (Undenied deny name × Allows allow name)
unfolding deny_reason
deny_reason-permits deny allow name = elim (Option-cases (denied_by deny name)) [
  | inl e ↦ (
    λ h. (
      (denied_by-Undenied deny name).0 e,
      (allow_reason-Allows allow name).0 (rw (e, deny_reason) at h),
    ),
    λ h. rw (e, deny_reason) ((allow_reason-Allows allow name).1 h.1),
  )
  | inr (p, e) ↦ (
    λ h. absurd (some_ne_none (rw (e, deny_reason) at h)),
    λ h. cc (e, (denied_by-Undenied deny name).1 h.0),
  )
]
  where
    some_ne_none : {r : DenyReason} → some r ≡ none → ⊥
    some_ne_none h = cc

find_rule-first :
    (before : List Text) (pat : Text) (after : List Text) (n : Text)
    → Clear before n
    → Covers pat n
    → find_rule (before ++ pat ∷ after) n ≡ some pat
unfolding find_rule
find_rule-first [] pat after n clear c = rw ((matches_rule-Covers pat n).1 c)
find_rule-first (b ∷ bs) pat after n clear c = elim (Bool-cases (matches_rule b n)) [
  | inl e ↦ absurd (clear.0 ((matches_rule-Covers b n).0 e))
  | inr e ↦ rw e (find_rule-first bs pat after n clear.1 c)
]

-- The refusal names the first deny rule that covers the tool: the rule is on the list, it covers
-- the name, and no rule in front of it does. An allow list makes no difference to it.
pub deny_reason-first :
    (before : List Text) (pat : Text) (after allow : List Text) (n : Text)
    → Clear before n
    → Covers pat n
    → deny_reason (before ++ pat ∷ after) allow (some n) ≡ some (deny_list pat)
unfolding deny_reason denied_by
deny_reason-first before pat after allow n clear c =
    rw (find_rule-first before pat after n clear c, deny_reason)
