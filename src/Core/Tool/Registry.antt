-- ===== src/Core/Tool/Registry.antt =====
-- crates/harness-core/src/tool.rs: what registration keeps, and what of the registry a model sees.
use nausicaa.Prelude.{
  String, ◌≡◌, ◌≢◌, Option, some, List, [], ◌∷◌, arith, ok, err, is_blank, if◌then◌else◌,
  string_ord, ==_iff, In, inl, inr, ◌⊎◌, ap, ◌∙◌, Option-cases, ◌||◌,
}
use nausicaa.Prelude.BTreeMap
use nausicaa.Core.Model.{ToolDefinition}
use nausicaa.Core.Policy.{
  Access, ToolPolicy, PolicyContext, CapabilityProjection, visible_names, access,
  project_capabilities,
}
use nausicaa.Core.Policy.Projection.{visible_names_iff, access-project_capabilities}
use nausicaa.Core.Tool.{
  Tool, RegisteredTool, ToolRegistry, RegistryError, register_arc, get_tool, names, definitions_for,
}

module _ {V W : Type 0} where
  -- every tool stands under the name that its definition has
  pub record IsNamed (registry : ToolRegistry V W) : Type 0 where
    pub at_name :
        (name : String) (r : RegisteredTool V W)
        → BTreeMap.get name registry.tools ≡ some r
        → r.definition.name ≡ name

  -- Registration keeps every tool under the name of its definition.
  register_arc-IsNamed :
      (registry : ToolRegistry V W) (tool : Tool V W)
      → IsNamed registry
      → IsNamed (register_arc registry tool).1
  unfolding register_arc
  register_arc-IsNamed registry tool h = record {
    at_name = λ name r e. ground (
      arith,
      ==_iff tool.definition.name name,
      h.at_name name r,
      BTreeMap.get-insert tool.definition.name name
          (record { definition = tool.definition; implementation = tool }) registry.tools,
    );
  }

  -- Registering a tool never takes away or replaces one that is registered.
  register_arc_keeps :
      (registry : ToolRegistry V W) (tool old : Tool V W) (name : String)
      → get_tool registry name ≡ some old
      → get_tool (register_arc registry tool).1 name ≡ some old
  unfolding register_arc get_tool
  register_arc_keeps registry tool old name h =
      elim (Option-cases (BTreeMap.get name registry.tools)) [
        | inl e ↦ ground arith
        | inr (r, e) ↦ ground (
          arith,
          ==_iff tool.definition.name name,
          BTreeMap.contains_key-get name registry.tools e,
          BTreeMap.get-insert tool.definition.name name
              (record { definition = tool.definition; implementation = tool }) registry.tools,
        )
      ]

  -- Registration succeeds exactly for a name that is not blank and not taken. The tool is then found
  -- under it, and after a refusal the name leads to what it led to before.
  pub register_arc_lem :
      (registry : ToolRegistry V W) (tool : Tool V W)
      → let name = tool.definition.name in
        ((register_arc registry tool).0 ≡ (
          if is_blank name
          then err RegistryError.empty_name
          else if BTreeMap.contains_key name registry.tools
          then err (RegistryError.duplicate name)
          else ok tt))
        × (get_tool (register_arc registry tool).1 name ≡ (
            if is_blank name || BTreeMap.contains_key name registry.tools
            then get_tool registry name
            else some tool))
  unfolding register_arc get_tool
  register_arc_lem registry tool = ground (
    arith,
    ==_iff tool.definition.name tool.definition.name,
    BTreeMap.get-insert tool.definition.name tool.definition.name
        (record { definition = tool.definition; implementation = tool }) registry.tools,
  )

  In-definitions_for :
      (registry : ToolRegistry V W) (ns : List String) (d : ToolDefinition V)
      → IsNamed registry
      → In d (definitions_for registry ns)
      → In d.name ns
  unfolding definitions_for
  In-definitions_for registry [] d h i = absurd i
  In-definitions_for registry (n ∷ ns) d h i = elim (Option-cases (BTreeMap.get n registry.tools)) [
    | inl e ↦ inr (In-definitions_for registry ns d h (ground arith))
    | inr (r, e) ↦ pushed (In-definitions_for registry ns d h) r e (rw e at i)
  ]
    where
      pushed :
          (In d (definitions_for registry ns) → In d.name ns)
          → (r : RegisteredTool V W) → BTreeMap.get n registry.tools ≡ some r
          → (d ≡ r.definition) ⊎ In d (definitions_for registry ns)
          → (d.name ≡ n) ⊎ In d.name ns
      pushed later r e (inl p) = inl (ap (λ x. x.name) p ∙ h.at_name n r e)
      pushed later r e (inr p) = inr (later p)

  -- Every definition that is sent to a model is of a tool whose access in the projection is not
  -- `Deny`.
  pub definitions_for-visible_names :
      (registry : ToolRegistry V W) (policy : ToolPolicy) (context : PolicyContext)
      (parent : Option CapabilityProjection) (d : ToolDefinition V)
      → IsNamed registry
      → let projection = project_capabilities (names registry) policy context parent in
        In d (definitions_for registry (visible_names projection))
        → access projection d.name ≢ Access.deny
  definitions_for-visible_names registry policy context parent d h i =
      let projection = project_capabilities (names registry) policy context parent in
      let j = In-definitions_for registry (visible_names projection) d h i in
      let v = (visible_names_iff (names registry) policy context parent d.name).0 j in
      let a = access-project_capabilities policy context parent (names registry) d.name in
      λ e. v.1 (ground (arith, a, v.0))
