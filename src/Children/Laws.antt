-- ===== src/Children/Laws.antt =====
-- What stands in the registry of a child.
use mathlib.Core.List.{Memᴰ}
use swain.Common.{
  String, Bool, true, false, not, ◌&&◌, some, List, [], ◌∷◌, ◌≡◌, refl, arith, inl, inr, Bool-cases,
  str_eq, filter, Dict, lookup, lookup-insert, eq_iff, if◌then◌else◌, subst,
}
use swain.Llms.Messages.{Json, ◌&◌}
use swain.Session.{Session}
use swain.Tasks.{AgentType}
use swain.Agent.Tools.{Tool, ToolError, failure, denied}
use swain.Children.Commands.{names, is_read_only_command, is_smuggler}
use swain.Children.Commands.Laws.{has_char, is_escaping, is_read_only_command-bare}
use swain.Children.{
  definition_tools, global_child_deny, mutating_tools, is_read_only, guarded_call, read_only_bash,
  admit, admit_all, make_child_tool_registry,
}

names-filter :
    (p : String → Bool) (xs : List String) (n : String)
    → names (filter p xs) n ≡ true
    → (names xs n ≡ true) × (p n ≡ true)
names-filter p [] n h = absurd (cc)
names-filter p (x ∷ xs) n h = elim (Bool-cases (p x)) [
  | inr drops ↦ let later = names-filter p xs n (rw drops at h) in (ground (arith, later), later.1)
  | inl keeps ↦ elim (Bool-cases (str_eq x n)) [
    | inl same ↦ (rw same refl, subst (λ y. p y ≡ true) ((eq_iff x n).0 same) keeps)
    | inr other ↦ let later = names-filter p xs n (ground arith) in (ground (arith, later), later.1)
  ]
]

not-eq-true : (b : Bool) → not b ≡ true → b ≡ false
not-eq-true b h = ground arith

lookup_nil {ℓ} : {V : Type ℓ} {P : Type 0} (n : String) (v : V) → lookup n [] ≡ some v → P
unfolding lookup
lookup_nil n v e = absurd (cc)

module _ {W : Type 0} (command_of : Json → String) where
  -- How a child's registry may answer a name: the name is allowed, not mutating where the child is
  -- read-only, and the tool is one of the given ones of that name, behind the classifier if it is
  -- a read-only child's `Bash`.
  pub record IsAdmitted (read_only : Bool) (allow : List String) (given : Dict (Tool W))
      (name : String) (tool : Tool W) : Type 0 where
    pub allowed : names allow name ≡ true
    pub harmless : (read_only && names mutating_tools name) ≡ false
    pub source :
        (own : Tool W) × Memᴰ (name, own) given
        × (tool ≡ (if read_only && str_eq name "Bash" then read_only_bash command_of own else own))

  abbrev AdmitsOnly : Bool → List String → Dict (Tool W) → Dict (Tool W) → Type 0
  AdmitsOnly read_only allow given registry =
      (name : String) (tool : Tool W)
      → lookup name registry ≡ some tool
      → IsAdmitted read_only allow given name tool

  module _ (r : Bool) (allow : List String) (given : Dict (Tool W)) where
    admit-AdmitsOnly :
        (name : String) (tool : Tool W) (registry : Dict (Tool W))
        → Memᴰ (name, tool) given
        → AdmitsOnly r allow given registry
        → AdmitsOnly r allow given (admit command_of r allow name tool registry)
    unfolding admit
    admit-AdmitsOnly name tool registry m h n t e = elim (Bool-cases (names allow name)) [
      | inr refused ↦ h n t (ground arith)
      | inl ok ↦ elim (Bool-cases (r && names mutating_tools name)) [
        | inl mutating ↦ h n t (ground arith)
        | inr safe ↦ elim (Bool-cases (str_eq name n)) [
          | inr other ↦ h n t (
              ground (
                arith,
                lookup-insert name n
                    (if r && str_eq name "Bash" then read_only_bash command_of tool else tool)
                    registry,
              ))
          | inl same ↦
              let is : name ≡ n = (eq_iff name n).0 same in
              subst (λ x. IsAdmitted r allow given x t) is
                (record {
                  allowed = ok;
                  harmless = safe;
                  source = (
                    tool,
                    m,
                    ground (
                      arith,
                      lookup-insert name n
                          (if r && str_eq name "Bash" then read_only_bash command_of tool else tool)
                          registry,
                    ),
                  );
                })
        ]
      ]
    ]

    admit_all-AdmitsOnly :
        (tools registry : Dict (Tool W))
        → ((e : String × Tool W) → Memᴰ e tools → Memᴰ e given)
        → AdmitsOnly r allow given registry
        → AdmitsOnly r allow given (admit_all command_of r allow tools registry)
    unfolding admit_all
    admit_all-AdmitsOnly [] registry m h = h
    admit_all-AdmitsOnly ((name, tool) ∷ tools) registry m h =
        admit_all-AdmitsOnly tools (admit command_of r allow name tool registry)
          (λ e k. m e (Memᴰ.tail k))
          (admit-AdmitsOnly name tool registry (m (name, tool) (Memᴰ.head refl)) h)

  -- Each tool of a child is one that its type's definition lists and that its parent has, and no tool
  -- that children are denied; a read-only child has no mutating tool, and its `Bash` is the parent's
  -- behind the classifier of read-only commands.
  pub make_child_tool_registry-IsAdmitted :
      (agent_type : AgentType) (parent : Dict (Tool W)) (isolated : Bool) (name : String)
      (tool : Tool W)
      → lookup name (make_child_tool_registry command_of agent_type parent isolated) ≡ some tool
      → IsAdmitted (is_read_only agent_type isolated) (definition_tools agent_type) parent name tool
        × (names global_child_deny name ≡ false)
  unfolding make_child_tool_registry
  make_child_tool_registry-IsAdmitted agent_type parent isolated name tool e =
      let r = is_read_only agent_type isolated in
      let allow = filter (λ n. not (names global_child_deny n)) (definition_tools agent_type) in
      let got =
        admit_all-AdmitsOnly r allow parent parent [] (λ x k. k) (λ n t found. lookup_nil n t found)
          name tool e in
      let both =
        names-filter (λ n. not (names global_child_deny n)) (definition_tools agent_type) name
          got.allowed in
      (
        record { allowed = both.0; harmless = got.harmless; source = got.source },
        not-eq-true (names global_child_deny name) both.1,
      )

  guarded_call-denied :
      (bash : Tool W) (input : Json) (s : Session) (w : W)
      → is_read_only_command (command_of input) ≡ false
      → (e : ToolError) × ((read_only_bash command_of bash).call input s w ≡ (failure e, w))
  unfolding read_only_bash guarded_call
  guarded_call-denied bash input s w refused =
      let e : ToolError = record {
        tool = bash.name;
        reason = denied;
        message =
            "Read-only subagent can only run allowlisted inspection commands, not: "
            & command_of input;
      } in
      (e, rw refused refl)

  -- Where a child is read-only, a call of its `Bash` whose command has a redirection or a back quote,
  -- and no quote and no backslash, fails and changes nothing.
  pub child_bash-denied :
      (agent_type : AgentType) (parent : Dict (Tool W)) (isolated : Bool) (tool : Tool W)
      (input : Json) (s : Session) (w : W)
      → is_read_only agent_type isolated ≡ true
      → lookup "Bash" (make_child_tool_registry command_of agent_type parent isolated) ≡ some tool
      → has_char is_escaping (command_of input) ≡ false
      → has_char is_smuggler (command_of input) ≡ true
      → (e : ToolError) × (tool.call input s w ≡ (failure e, w))
  child_bash-denied agent_type parent isolated tool input s w r e plain smuggles =
      let (own, m, is) =
        (make_child_tool_registry-IsAdmitted agent_type parent isolated "Bash" tool e).0.source in
      elim (Bool-cases (is_read_only_command (command_of input))) [
        | inl passes ↦
            let bare = is_read_only_command-bare (command_of input) plain passes in absurd (cc)
        | inr refused ↦
            let (x, denies) = guarded_call-denied own input s w refused in (x, rw (is, r) denies)
      ]
