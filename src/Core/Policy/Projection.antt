-- ===== src/Core/Policy/Projection.antt =====
-- crates/harness-core/src/policy.rs: what a projection grants, tool by tool, and to the model.
use nausicaa.Prelude.{
  ℕ, ◌≤◌, String, ◌≡◌, ◌≢◌, ◌↔◌, refl, Bool, true, Option, none, some, List, [], ◌∷◌, arith, min,
  Bool-cases, ◌==◌, Ordering, ==_iff, if◌then◌else◌, string_ord, inl, inr, In, any, sym, ap, ◌∙◌,
}
use Prim.Native.String.{compare}
use nausicaa.Prelude.BTreeMap
use nausicaa.Prelude.BTreeMap.{BTreeMap}
use nausicaa.Core.Policy.{
  Access, restrict, PolicyContext, ToolPolicy, CapabilityPolicy, grant, policy_access,
  CapabilityProjection, access, visible_entries, visible_names, effective, project_entries,
  project_capabilities,
}

-- the place of a level in the order `Deny < Ask < Allow`
abbrev pub rank : Access → ℕ
rank Access.deny = 0
rank Access.ask = 1
rank Access.allow = 2

restrict-le : (a b : Access) → (rank (restrict a b) ≤ rank a) × (rank (restrict a b) ≤ rank b)
unfolding restrict
restrict-le Access.deny b = ground arith
restrict-le Access.ask b = ground arith
restrict-le Access.allow b = ground arith

-- the tool is one of those that are registered
abbrev pub named : String → List String → Bool
named name names = any (λ n. n == name) names

module _ (policy : ToolPolicy) (context : PolicyContext)
    (parent : Option CapabilityProjection) where
  get-project_entries :
      (names : List String) (m : BTreeMap String Access) (name : String)
      → BTreeMap.get name (project_entries policy context parent names m) ≡ (
          if named name names
          then some (effective policy context parent name)
          else BTreeMap.get name m)
  unfolding project_entries any
  get-project_entries [] m name = refl
  get-project_entries (n ∷ names) m name = ground (
    arith,
    ==_iff n name,
    BTreeMap.get-insert n name (effective policy context parent n) m,
    get-project_entries names (BTreeMap.insert n (effective policy context parent n) m) name,
  )

  -- a registered tool has its effective access, any other name `Deny`
  pub access-project_capabilities :
      (names : List String) (name : String)
      → access (project_capabilities names policy context parent) name
        ≡ (if named name names then effective policy context parent name else Access.deny)
  unfolding access project_capabilities BTreeMap.get
  access-project_capabilities names name = ground (arith, get-project_entries names [] name)

-- the level that a parent leaves open
abbrev pub ceiling : Option CapabilityProjection → String → ℕ
ceiling none name = 2
ceiling (some parent) name = rank (access parent name)

restrict-min : (a b : Access) → rank (restrict a b) ≡ min (rank a) (rank b)
unfolding restrict
restrict-min a b = ground arith

-- In the order `Deny < Ask < Allow`, the projection gives a registered tool the lesser of the
-- policy's level and the parent's, the policy's where there is no parent, and gives every name that
-- is not registered `Deny`.
pub rank-project_capabilities :
    (names : List String) (policy : ToolPolicy) (context : PolicyContext)
    (parent : Option CapabilityProjection) (name : String)
    → rank (access (project_capabilities names policy context parent) name)
      ≡ (if named name names then min (rank (policy name context)) (ceiling parent name) else 0)
unfolding effective
rank-project_capabilities names policy context none name =
    ground (arith, access-project_capabilities policy context none names name)
rank-project_capabilities names policy context (some parent) name = ground (
  arith,
  access-project_capabilities policy context (some parent) names name,
  restrict-min (policy name context) (access parent name),
)

-- No child projection, whatever its policy and its tools, has an access above its parent's.
pub access-le-parent :
    (names : List String) (policy : ToolPolicy) (context : PolicyContext)
    (parent : CapabilityProjection) (name : String)
    → rank (access (project_capabilities names policy context (some parent)) name)
      ≤ rank (access parent name)
unfolding effective
access-le-parent names policy context parent name = ground (
  arith,
  access-project_capabilities policy context (some parent) names name,
  restrict-le (policy name context) (access parent name),
)

-- Granting a tool sets its access and leaves every other tool's as it was.
policy_access-grant :
    (policy : CapabilityPolicy) (tool name : String) (a : Access) (context : PolicyContext)
    → policy_access (grant policy tool a) name context
      ≡ (if tool == name then a else policy_access policy name context)
unfolding policy_access grant
policy_access-grant policy tool name a context =
    ground (arith, BTreeMap.get-insert tool name a policy.tools)

-- every entry of a map satisfies `P`
abbrev AllEntries : (String → Access → Type 0) → BTreeMap String Access → Type 0
AllEntries P [] = Unit
AllEntries P ((n, a) ∷ m) = P n a × AllEntries P m

AllEntries-insert :
    (P : String → Access → Type 0) (k : String) (a : Access) (m : BTreeMap String Access)
    → P k a
    → AllEntries P m
    → AllEntries P (BTreeMap.insert k a m)
unfolding BTreeMap.insert
AllEntries-insert P k a [] p h = (p, tt)
AllEntries-insert P k a ((j, b) ∷ m) p h = placed (compare k j) (AllEntries-insert P k a m p h.1)
  where
    placed :
        (c : Ordering)
        → AllEntries P (BTreeMap.insert k a m)
        → AllEntries P (BTreeMap.place c k a j b m (BTreeMap.insert k a m))
    placed Ordering.lt r = (p, h)
    placed Ordering.eq r = (p, h.1)
    placed Ordering.gt r = (h.0, r)

AllEntries-project :
    (policy : ToolPolicy) (context : PolicyContext) (parent : Option CapabilityProjection)
    (names : List String) (m : BTreeMap String Access)
    → AllEntries (λ n a. a ≡ effective policy context parent n) m
    → AllEntries
        (λ n a. a ≡ effective policy context parent n)
        (project_entries policy context parent names m)
unfolding project_entries
AllEntries-project policy context parent [] m h = h
AllEntries-project policy context parent (n ∷ names) m h =
    AllEntries-project policy context parent names _ (
      AllEntries-insert (λ n a. a ≡ effective policy context parent n) n
        (effective policy context parent n) m refl h)

module _ (f : String → Access) where
  visible_sound :
      (m : BTreeMap String Access) (name : String)
      → AllEntries (λ n a. a ≡ f n) m
      → In name (visible_entries m)
      → (f name ≢ Access.deny) × (BTreeMap.get name m ≡ some (f name))
  unfolding visible_entries BTreeMap.get
  visible_sound [] name h i = absurd i
  visible_sound ((n, Access.deny) ∷ m) name h i =
      ground (arith, ==_iff n name, visible_sound m name h.1 i)
  visible_sound ((n, a) ∷ m) name h (inl e) = ground (arith, ==_iff n name)
  visible_sound ((n, a) ∷ m) name h (inr i) =
      ground (arith, ==_iff n name, visible_sound m name h.1 i)

  visible_complete :
      (m : BTreeMap String Access) (name : String)
      → BTreeMap.get name m ≡ some (f name)
      → f name ≢ Access.deny
      → AllEntries (λ n a. a ≡ f n) m
      → In name (visible_entries m)
  unfolding visible_entries BTreeMap.get
  visible_complete [] name g h i = cc
  visible_complete ((n, Access.deny) ∷ m) name g h i =
      visible_complete m name (ground (arith, ==_iff n name)) h i.1
  visible_complete ((n, a) ∷ m) name g h i = elim (Bool-cases (n == name)) [
    | inl e ↦ inl (sym ((==_iff n name).0 e))
    | inr e ↦ inr (visible_complete m name (ground arith) h i.1)
  ]

-- A tool is offered to the model exactly when it is registered and its effective access, restricted
-- by the parent's if there is one, is not `Deny`.
pub visible_names_iff :
    (names : List String) (policy : ToolPolicy) (context : PolicyContext)
    (parent : Option CapabilityProjection) (name : String)
    → In name (visible_names (project_capabilities names policy context parent))
      ↔ ((named name names ≡ true) × (effective policy context parent name ≢ Access.deny))
unfolding visible_names project_capabilities BTreeMap.get
visible_names_iff names policy context parent name =
    let f = effective policy context parent in
    let m = project_entries policy context parent names [] in
    let entries : AllEntries (λ n a. a ≡ f n) m =
      AllEntries-project policy context parent names [] tt in
    let got = get-project_entries policy context parent names [] name in
    (
      (λ i. let s = visible_sound f m name entries i in ground (arith, got, s)),
      (λ h.
          visible_complete f m name (got ∙ ap (λ b. if b then some (f name) else none) h.0) h.1
            entries),
    )
