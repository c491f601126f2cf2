-- ===== src/Core/Policy.antt =====
-- crates/harness-core/src/policy.rs: access levels, the declarative policy, and the projection that
-- a parent's projection restricts.
pub mod Projection
use nausicaa.Prelude.{
  String, ◌≡◌, refl, Bool, true, false, Option, none, some, List, [], ◌∷◌, arith, Bool-cases, ◌==◌,
  ==_iff, if◌then◌else◌, string_ord, inl, inr,
}
use nausicaa.Prelude.BTreeMap
use nausicaa.Prelude.BTreeMap.{BTreeMap}

pub data Access : Type 0 where
  deny ask allow : Access

-- the derived `Ord`: `Deny < Ask < Allow`
abbrev pub min_access : Access → Access → Access
min_access Access.deny _ = Access.deny
min_access Access.ask Access.deny = Access.deny
min_access Access.ask _ = Access.ask
min_access Access.allow b = b

unfoldable pub restrict : Access → Access → Access
restrict a b = min_access a b

pub record PolicyContext : Type 0 where
  pub principal : Option String
  pub channel : Option String
  pub agent : Option String
  pub sandbox : Option String

-- the trait's one method
abbrev pub ToolPolicy : Type 0
ToolPolicy = String → PolicyContext → Access

pub record CapabilityPolicy : Type 0 where
  pub default : Access
  pub tools : BTreeMap String Access

abbrev pub deny_by_default : CapabilityPolicy
deny_by_default = record { default = Access.deny; tools = [] }

unfoldable pub with_default : CapabilityPolicy → Access → CapabilityPolicy
with_default policy access = record policy { default = access }

unfoldable pub grant : CapabilityPolicy → String → Access → CapabilityPolicy
grant policy tool_name access = record policy {
  tools = BTreeMap.insert tool_name access policy.tools;
}

abbrev pub unwrap_or : Option Access → Access → Access
unwrap_or none d = d
unwrap_or (some a) d = a

unfoldable pub policy_access : CapabilityPolicy → ToolPolicy
policy_access policy tool_name _ = unwrap_or (BTreeMap.get tool_name policy.tools) policy.default

pub record CapabilityProjection : Type 0 where
  pub entries : BTreeMap String Access

unfoldable pub access : CapabilityProjection → String → Access
access projection tool_name = unwrap_or (BTreeMap.get tool_name projection.entries) Access.deny

abbrev pub is_denied : Access → Bool
is_denied Access.deny = true
is_denied _ = false

unfoldable pub visible_entries : BTreeMap String Access → List String
visible_entries [] = []
visible_entries ((name, a) ∷ m) =
    let rest = visible_entries m in if is_denied a then rest else name ∷ rest

unfoldable pub visible_names : CapabilityProjection → List String
unfolding visible_entries
visible_names projection = visible_entries projection.entries

unfoldable pub effective :
    ToolPolicy → PolicyContext → Option CapabilityProjection → String → Access
effective policy context none name = policy name context
effective policy context (some parent) name = restrict (policy name context) (access parent name)

-- `collect()` into a map inserts the pairs in turn
unfoldable pub project_entries :
    ToolPolicy
    → PolicyContext
    → Option CapabilityProjection
    → List String
    → BTreeMap String Access
    → BTreeMap String Access
project_entries policy context parent [] entries = entries
project_entries policy context parent (name ∷ names) entries =
    project_entries policy context parent names
      (BTreeMap.insert name (effective policy context parent name) entries)

unfoldable pub project_capabilities :
    List String → ToolPolicy → PolicyContext → Option CapabilityProjection → CapabilityProjection
unfolding project_entries
project_capabilities tool_names policy context parent = record {
  entries = project_entries policy context parent tool_names [];
}
