-- ===== src/Tests/Policy.antt =====
-- The policy on small inputs.
use mcpglass.Base.{[], ◌≡◌, ◌≢◌, ◌↔◌, ◌⊎◌, refl, true, none, some, All}
use mcpglass.Base.Text.{codes, text_eq, starts_with}
use mcpglass.Json.{Value, null, string, object, Fields, end, field, get, lookup}
use mcpglass.Policy.Config.{enforce}
use mcpglass.Policy.Rules.{matches_rule, strip_star, deny_reason}
use mcpglass.Policy.Rules.Correct.{
  Covers, Undenied, Allows, matches_rule-Covers, deny_reason-permits,
}
use mcpglass.Policy.Mask.{mask}
use mcpglass.Policy.Secrets.{arguments, scan_secrets, scan_request_arguments}
use mcpglass.Policy.Secrets.Previews.{IsMasked, scan_request_arguments-IsMasked}
use mcpglass.Policy.Secrets.Reach.{
  here, in_array, this_item, this_field, later_field, Within, scan_request_arguments-Holds,
}
use mcpglass.Policy.Evaluate.{block, is_tools_call, evaluate_request}
use mcpglass.Policy.Evaluate.Verdict.{Refused, Leaks, evaluate_request-block}
use mcpglass.Policy.Canonical.{write_canonical}
use mcpglass.Policy.Canonical.Stable.{same, in_object, swap, write_canonical-Same}
use mcpglass.Policy.Fingerprint.{fingerprint_tool_versions, get_or_null}
use mcpglass.Policy.Fingerprint.Sees.{fingerprint_tool_versions-SameTool}
use mcpglass.Tests.Sample.{arguments_fields, call, serde, libs, policy}

masked : mask (codes "AKIA0123456789ABCDEF") ≡ codes "AKIA**************EF"
unfolding mask
masked = refl

deny_reason-permits_example :
    (deny_reason policy.deny policy.allow (some (codes "fs_read")) ≡ none)
    ↔ (Undenied policy.deny (some (codes "fs_read")) × Allows policy.allow (some (codes "fs_read")))
deny_reason-permits_example = deny_reason-permits policy.deny policy.allow (some (codes "fs_read"))

not_covered : ¬ Covers (codes "net_*") (codes "fs_write")
unfolding matches_rule strip_star starts_with
not_covered c = cc ((matches_rule-Covers (codes "net_*") (codes "fs_write")).1 c)

scan_request_arguments-Holds_example :
    Within
      (scan_secrets libs (codes "AKIA0123456789ABCDEF") [])
      (scan_request_arguments libs call [])
unfolding arguments get lookup text_eq
scan_request_arguments-Holds_example =
    scan_request_arguments-Holds libs [] call arguments_fields refl
      (later_field (this_field (in_array (this_item here))))

scan_request_arguments-IsMasked_example :
    All (IsMasked libs [] call) (scan_request_arguments libs call [])
scan_request_arguments-IsMasked_example = scan_request_arguments-IsMasked libs call []

evaluate_request-block_example : ((evaluate_request libs call policy).action ≡ block) ↔ (
    (is_tools_call call ≡ true)
    × (policy.mode ≡ enforce)
    × (Refused policy call ⊎ Leaks libs policy call))
evaluate_request-block_example = evaluate_request-block libs call policy

keys_differ : codes "name" ≢ codes "icons"
keys_differ = λ e. cc e

abbrev tool_fields : Fields
tool_fields = field (codes "name") (string (codes "rm")) (field (codes "icons") null end)

abbrev other_fields : Fields
other_fields = field (codes "icons") null (field (codes "name") (string (codes "rm")) end)

write_canonical-Same_example :
    write_canonical serde (object tool_fields) ≡ write_canonical serde (object other_fields)
write_canonical-Same_example =
    write_canonical-Same serde (object tool_fields) (object other_fields)
      (in_object (swap keys_differ))

abbrev plain_tool : Value
plain_tool = object (field (codes "name") (string (codes "rm")) end)

fingerprint_tool_versions-SameTool_example :
    fingerprint_tool_versions serde libs (object tool_fields)
    ≡ fingerprint_tool_versions serde libs plain_tool
unfolding get_or_null get lookup text_eq
fingerprint_tool_versions-SameTool_example =
    fingerprint_tool_versions-SameTool serde libs (object tool_fields) plain_tool (record {
      name = same (string (codes "rm"));
      description = same null;
      input_schema = same null;
      annotations = same null;
      output_schema = same null;
    })
