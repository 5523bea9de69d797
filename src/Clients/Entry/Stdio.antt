-- ===== src/Clients/Entry/Stdio.antt =====
-- Detaching a command that was attached.
use mcpglass.Base.{
  Option, none, some, Option-cases, ◌≡◌, ◌≢◌, refl, ap, ◌∙◌, subst, true, false, inl, inr,
}
use mcpglass.Base.Text.{Text, codes, text_eq}
use mcpglass.Json.{
  Value, string, array, object, null, bool, number, Items, nil, cons, Fields, as_str, as_array,
  lookup, ◌>>=◌,
}
use mcpglass.Clients.Table.{GatewayConfig, insert}
use mcpglass.Clients.Table.Laws.{
  other_key, lookup-insert, lookup-insert_other, insert-insert, insert_same, insert_swap,
}
use mcpglass.Clients.Entry.{
  Outside, is_mcpglass, is_str, first_str, after_separator, tail_items, orig_args_of, wrap_args,
  attach_args, attach_stdio_entry, restore_args, detach_after, detach_args, detach_stdio_entry,
  detach_by, detach_entry,
}
use mcpglass.Clients.Entry.Plain.{Documented}

module _ (out : Outside) (law : Documented out) (exe : Text)
    (own : is_mcpglass out exe ≡ true) where
  -- The map of a stdio entry once it is attached.
  abbrev attached : Text → Text → Items → Fields → Fields
  attached name command args obj =
      insert (codes "args") (array (wrap_args name command args))
        (insert (codes "command") (string exe) obj)

  after_separator-wrap_args :
      (name command : Text) (args : Items)
      → name ≢ codes "--"
      → after_separator (wrap_args name command args) ≡ some (cons (string command) args)
  unfolding after_separator is_str as_str text_eq
  after_separator-wrap_args name command args h =
      rw (other_key name (codes "--") h, after_separator) refl

  -- Restoring the command undoes the change of the command under the changed arguments.
  command_back :
      (name command : Text) (args : Items) (obj : Fields)
      → lookup (codes "command") obj ≡ some (string command)
      → insert (codes "command") (string command) (attached name command args obj)
        ≡ insert (codes "args") (array (wrap_args name command args)) obj
  command_back name command args obj h =
      insert_swap (codes "command") (codes "args") (string command)
        (array (wrap_args name command args)) (string exe)
        (insert (codes "command") (string exe) obj) (λ e. cc)
        (lookup-insert (codes "command") (string exe) obj)
      ∙ ap (insert (codes "args") (array (wrap_args name command args))) (
          insert-insert (codes "command") (string command) (string exe) obj
          ∙ insert_same (codes "command") (string command) obj h)

  args_back :
      (wrapped : Value) (o : Option Value) (args : Items) (obj : Fields)
      → lookup (codes "args") obj ≡ o
      → orig_args_of o ≡ some args
      → o ≢ some (array nil)
      → restore_args out args (insert (codes "args") wrapped obj) ≡ obj
  unfolding orig_args_of as_array restore_args
  args_back wrapped none args obj there orig h =
      subst (λ xs. restore_args out xs (insert (codes "args") wrapped obj) ≡ obj)
        (some_injective orig) (law.removes (codes "args") wrapped obj there)
    where
      some_injective : {a b : Items} → some a ≡ some b → a ≡ b
      some_injective e = cc
  args_back wrapped (some (array nil)) args obj there orig h = absurd (h refl)
  args_back wrapped (some (array (cons v vs))) args obj there orig h =
      subst (λ xs. restore_args out xs (insert (codes "args") wrapped obj) ≡ obj)
        (some_injective orig)
        (insert-insert (codes "args") (array (cons v vs)) wrapped obj
          ∙ insert_same (codes "args") (array (cons v vs)) obj there)
    where
      some_injective : {a b : Items} → some a ≡ some b → a ≡ b
      some_injective e = cc
  args_back wrapped (some (string t)) args obj there orig h = cc
  args_back wrapped (some null) args obj there orig h = cc
  args_back wrapped (some (bool b)) args obj there orig h = cc
  args_back wrapped (some (number n)) args obj there orig h = cc
  args_back wrapped (some (object fs)) args obj there orig h = cc

  detach_of :
      (gateway : GatewayConfig) (fs : Fields) (c : Text)
      → lookup (codes "command") fs ≡ some (string c)
      → (detach_entry out (object fs) gateway).0 ≡ object (detach_stdio_entry out fs c).0
  unfolding detach_entry detach_by as_str
  detach_of gateway fs c h =
      ap
        (λ o.
          object (detach_by out fs gateway (o >>= as_str) (lookup (codes "url") fs >>= as_str)).0)
        h

  detach_attached :
      (name command : Text) (xs : Items) (obj : Fields)
      → lookup (codes "command") obj ≡ some (string command)
      → name ≢ codes "--"
      → lookup (codes "args") obj ≢ some (array nil)
      → orig_args_of (lookup (codes "args") obj) ≡ some xs
      → (detach_stdio_entry out (attached name command xs obj) exe).0 ≡ obj
  unfolding detach_stdio_entry detach_args detach_after first_str as_array as_str text_eq tail_items
  detach_attached name command xs obj h dash args orig =
      let here =
        lookup-insert (codes "args") (array (wrap_args name command xs))
          (insert (codes "command") (string exe) obj) in
      rw (own, detach_stdio_entry)
        (rw here (
          rw (after_separator-wrap_args name command xs dash) (
            ap (restore_args out xs) (command_back name command xs obj h)
            ∙ args_back (array (wrap_args name command xs)) _ xs obj refl orig args)))

  -- Detaching what `attach_stdio_entry` made of a command.
  pub stdio_back :
      (name command : Text) (obj : Fields) (gateway : GatewayConfig)
      → lookup (codes "command") obj ≡ some (string command)
      → is_mcpglass out command ≡ false
      → name ≢ codes "--"
      → lookup (codes "args") obj ≢ some (array nil)
      → (detach_entry out (object (attach_stdio_entry out name obj exe command).0) gateway).0
        ≡ object obj
  unfolding attach_stdio_entry attach_args detach_stdio_entry
  stdio_back name command obj gateway is foreign dash args =
      elim (Option-cases (orig_args_of (lookup (codes "args") obj))) [
        | inl e ↦
            rw (foreign, attach_stdio_entry)
              (rw (e, attach_args)
                (detach_of gateway obj command is ∙ rw (foreign, detach_stdio_entry) refl))
        | inr (xs, e) ↦
            let here =
              lookup-insert_other (codes "args") (codes "command")
                (array (wrap_args name command xs)) (insert (codes "command") (string exe) obj)
                (λ q. cc)
              ∙ lookup-insert (codes "command") (string exe) obj in
            rw (foreign, attach_stdio_entry)
              (rw (e, attach_args)
                (detach_of gateway (attached name command xs obj) exe here
                  ∙ ap object (detach_attached name command xs obj is dash args e)))
      ]
