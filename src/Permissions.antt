-- ===== src/Permissions.antt =====
-- packages/core/src/permission.ts: the gate that a tool consults before it acts.
--
-- `Outside` is what an approval source changes. The mode is read when the request is checked.
use swain.Common.{String, Bool, Option, if◌then◌else◌}
use swain.Llms.Messages.{◌&◌}
use swain.Session.{PermissionMode, plan, ask, auto_mode}

pub data PermissionDecision : Type 0 where
  allow : PermissionDecision
  deny : (reason : String) → PermissionDecision
  ask_user : (reason : String) → PermissionDecision

pub record PermissionRequest : Type 0 where
  pub tool_name : String
  pub read_only : Bool
  pub summary : String
  pub command : Option String
  pub diff : Option String

abbrev pub Approval : Type 0 → Type 0
Approval Outside = PermissionRequest → Outside → PermissionDecision × Outside

abbrev pub auto_approval : {Outside : Type 0} → Approval Outside
auto_approval request w = (allow, w)

pub check :
    {Outside : Type 0}
    → (Outside → PermissionMode)
    → Approval Outside
    → PermissionRequest
    → Outside
    → PermissionDecision × Outside
check get_mode request_approval request w = elim (get_mode w) [
  | plan ↦ (
    if request.read_only
        then allow
        else deny ("Plan mode denies the mutating tool \"" & request.tool_name & "\"."),
    w,
  )
  | auto_mode ↦ (allow, w)
  | ask ↦ if request.read_only then (allow, w) else request_approval request w
]
