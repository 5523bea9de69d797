-- ===== src/Event/Tokens.antt =====
-- The tokens in the database are read back, and nothing else is.
use mcpglass.Base.{◌≡◌, ◌↔◌, refl, some, arith}
use mcpglass.Base.Text.{Text, text_eq, text_eq_iff, codes}
use mcpglass.Message
use mcpglass.Message.{Direction, c2s, s2c}
use mcpglass.Event.{
  SecurityEventKind, policy_deny, secret_leak, fingerprint_change, kind_as_str, kind_from_str,
  ActionTaken, flagged, blocked, action_as_str, action_from_str, InjectFault, delay, error, drop,
  truncate, fault_as_str, fault_from_str,
}

direction_back : (d : Direction) → Message.from_str (Message.as_str d) ≡ some d
unfolding Message.from_str Message.as_str text_eq
direction_back c2s = refl
direction_back s2c = refl

kind_back : (k : SecurityEventKind) → kind_from_str (kind_as_str k) ≡ some k
unfolding kind_from_str kind_as_str text_eq
kind_back policy_deny = refl
kind_back secret_leak = refl
kind_back fingerprint_change = refl

action_back : (a : ActionTaken) → action_from_str (action_as_str a) ≡ some a
unfolding action_from_str action_as_str text_eq
action_back flagged = refl
action_back blocked = refl

fault_back : (f : InjectFault) → fault_from_str (fault_as_str f) ≡ some f
unfolding fault_from_str fault_as_str text_eq
fault_back delay = refl
fault_back error = refl
fault_back drop = refl
fault_back truncate = refl

direction_only : (s : Text) (d : Direction) → Message.from_str s ≡ some d → s ≡ Message.as_str d
unfolding Message.from_str Message.as_str
direction_only s c2s h = (text_eq_iff s (codes "c2s")).0 (ground arith)
direction_only s s2c h = (text_eq_iff s (codes "s2c")).0 (ground arith)

kind_only : (s : Text) (k : SecurityEventKind) → kind_from_str s ≡ some k → s ≡ kind_as_str k
unfolding kind_from_str kind_as_str
kind_only s policy_deny h = (text_eq_iff s (codes "policy_deny")).0 (ground arith)
kind_only s secret_leak h = (text_eq_iff s (codes "secret_leak")).0 (ground arith)
kind_only s fingerprint_change h = (text_eq_iff s (codes "fingerprint_change")).0 (ground arith)

action_only : (s : Text) (a : ActionTaken) → action_from_str s ≡ some a → s ≡ action_as_str a
unfolding action_from_str action_as_str
action_only s flagged h = (text_eq_iff s (codes "flagged")).0 (ground arith)
action_only s blocked h = (text_eq_iff s (codes "blocked")).0 (ground arith)

fault_only : (s : Text) (f : InjectFault) → fault_from_str s ≡ some f → s ≡ fault_as_str f
unfolding fault_from_str fault_as_str
fault_only s delay h = (text_eq_iff s (codes "delay")).0 (ground arith)
fault_only s error h = (text_eq_iff s (codes "error")).0 (ground arith)
fault_only s drop h = (text_eq_iff s (codes "drop")).0 (ground arith)
fault_only s truncate h = (text_eq_iff s (codes "truncate")).0 (ground arith)

-- For directions, kinds of security event, actions taken and kinds of fault alike: a text is read
-- back as a value exactly when it is the token that is written for that value.
pub tokens_exact :
    ((s : Text) (d : Direction) → (Message.from_str s ≡ some d) ↔ (s ≡ Message.as_str d))
    × ((s : Text) (k : SecurityEventKind) → (kind_from_str s ≡ some k) ↔ (s ≡ kind_as_str k))
    × ((s : Text) (a : ActionTaken) → (action_from_str s ≡ some a) ↔ (s ≡ action_as_str a))
    × ((s : Text) (f : InjectFault) → (fault_from_str s ≡ some f) ↔ (s ≡ fault_as_str f))
tokens_exact = (
  λ s d. (direction_only s d, λ e. rw e (direction_back d)),
  λ s k. (kind_only s k, λ e. rw e (kind_back k)),
  λ s a. (action_only s a, λ e. rw e (action_back a)),
  λ s f. (fault_only s f, λ e. rw e (fault_back f)),
)
