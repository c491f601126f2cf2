-- ===== src/Core/Tests/Policies.antt =====
-- The policy, the registry and the validation of calls at concrete values.
use nausicaa.Prelude.{
  min, ℕ, ◌≡◌, ◌≢◌, ◌≤◌, ◌↔◌, refl, true, ◌||◌, none, some, [], ◌∷◌, ok, err, Done, if◌then◌else◌,
  In, inl, is_blank, string_ord, arith, ==_iff,
}
use nausicaa.Prelude.BTreeMap
use nausicaa.Core.Policy.{
  Access, access, policy_access, project_capabilities, visible_names, effective,
}
use nausicaa.Core.Policy.Projection.{
  named, rank, ceiling, rank-project_capabilities, access-le-parent, visible_names_iff,
}
use nausicaa.Core.Tool.{ToolRegistry, RegistryError, register_arc, get_tool, names, definitions_for}
use nausicaa.Core.Tool.Registry.{IsNamed, register_arc_lem, definitions_for-visible_names}
use nausicaa.Core.Runtime.Turn.{validate_tool_calls}
use nausicaa.Core.Runtime.Validation.{AreFresh, validate_tool_calls_iff}
use nausicaa.Core.Tests.{
  echo, echo_tools, echo_call, echo_definition, ask_policy, ask_projection, nobody,
}

rank-project_capabilities_example :
    rank (
      access
        (project_capabilities ("echo" ∷ []) (policy_access ask_policy) nobody (some ask_projection))
        "echo")
    ≡ (if named "echo" ("echo" ∷ [])
        then min
            (rank (policy_access ask_policy "echo" nobody))
            (ceiling (some ask_projection) "echo")
        else 0)
rank-project_capabilities_example =
    rank-project_capabilities ("echo" ∷ []) (policy_access ask_policy) nobody (some ask_projection)
      "echo"

access-le-parent_example :
    rank (
      access
        (project_capabilities
          ("echo" ∷ [])
          (λ name context. Access.allow)
          nobody
          (some ask_projection))
        "echo")
    ≤ rank (access ask_projection "echo")
access-le-parent_example =
    access-le-parent ("echo" ∷ []) (λ name context. Access.allow) nobody ask_projection "echo"

visible_names_iff_example :
    In "echo"
      (visible_names (project_capabilities ("echo" ∷ []) (policy_access ask_policy) nobody none))
    ↔ ((named "echo" ("echo" ∷ []) ≡ true)
        × (effective (policy_access ask_policy) nobody none "echo" ≢ Access.deny))
visible_names_iff_example =
    visible_names_iff ("echo" ∷ []) (policy_access ask_policy) nobody none "echo"

abbrev no_tools : ToolRegistry ℕ Done
no_tools = record { tools = [] }

no_tools-IsNamed : IsNamed no_tools
unfolding BTreeMap.get
no_tools-IsNamed = record { at_name = λ name r e. cc }

echo_tools-IsNamed : IsNamed echo_tools
unfolding BTreeMap.get
echo_tools-IsNamed = record { at_name = λ name r e. ground (arith, ==_iff "echo" name) }

register_arc_lem_example :
    ((register_arc no_tools echo).0 ≡ (
      if is_blank "echo"
      then err RegistryError.empty_name
      else if BTreeMap.contains_key "echo" no_tools.tools
      then err (RegistryError.duplicate "echo")
      else ok tt))
    × (get_tool (register_arc no_tools echo).1 "echo" ≡ (
        if is_blank "echo" || BTreeMap.contains_key "echo" no_tools.tools
        then get_tool no_tools "echo"
        else some echo))
register_arc_lem_example = register_arc_lem no_tools echo

echo_offered : In echo_definition (
    definitions_for echo_tools (
      visible_names
        (project_capabilities (names echo_tools) (policy_access ask_policy) nobody none)))
unfolding definitions_for visible_names project_capabilities names policy_access BTreeMap.get
    effective BTreeMap.insert
echo_offered = inl refl

definitions_for-visible_names_example :
    access (project_capabilities (names echo_tools) (policy_access ask_policy) nobody none) "echo"
    ≢ Access.deny
definitions_for-visible_names_example =
    definitions_for-visible_names echo_tools (policy_access ask_policy) nobody none echo_definition
      echo_tools-IsNamed echo_offered

validate_tool_calls_iff_example :
    (validate_tool_calls (echo_call ∷ []) ("earlier" ∷ []) ≡ ok tt)
    ↔ AreFresh ("earlier" ∷ []) (echo_call ∷ [])
validate_tool_calls_iff_example = validate_tool_calls_iff ("earlier" ∷ []) (echo_call ∷ [])
