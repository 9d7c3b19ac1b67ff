-- ===== src/Tasks/Node.antt =====
-- The tasks of packages/core/src/tasks.ts.
use swain.Common.{ℕ, String, Option, List}

pub data TaskStatus : Type 0 where
  pending in_progress completed failed : TaskStatus

pub data AgentType : Type 0 where
  explore plan general_purpose : AgentType

pub record Task : Type 0 where
  pub id : String
  pub subject : String
  pub description : String
  pub status : TaskStatus
  pub owner : Option String
  pub blocked_by : List String
  pub agent_type : Option AgentType
  pub result : Option String
  pub error : Option String
  pub worktree_path : Option String
  pub worktree_branch : Option String
  pub parent_notified_at : Option String
  pub created_at : String
  pub updated_at : String
  pub duration_ms : Option ℕ
