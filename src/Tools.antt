-- ===== src/Tools.antt =====
-- src/tools.rs: the names of the tools, their arguments and their results. The descriptions and the
-- schemas, texts for a language model, stand in Tools/Texts and Tools/Schemas.
pub mod Texts
pub mod Schemas
pub mod Catalog
use scriptorium.Text.{Text, codes}
use scriptorium.Base.{ℕ, Bool, List}
use scriptorium.Base.Int.{ℤ}

abbrev pub tool_execute_shell : Text
tool_execute_shell = codes "execute_shell"

abbrev pub tool_deliver : Text
tool_deliver = codes "deliver"

abbrev pub tool_copy_workspace_sandbox_to_execution_sandbox : Text
tool_copy_workspace_sandbox_to_execution_sandbox =
    codes "copy_workspace_sandbox_to_execution_sandbox"

abbrev pub tool_copy_execution_sandbox_to_workspace_sandbox : Text
tool_copy_execution_sandbox_to_workspace_sandbox =
    codes "copy_execution_sandbox_to_workspace_sandbox"

pub record ToolDescriptor : Type 0 where
  pub name : Text
  pub description : Text
  pub parameters_schema : Text

pub record ExecuteShellArgs : Type 0 where
  pub command : Text
  pub timeout_seconds : ℕ
  pub env : List (Text × Text)
  pub heavy : Bool

pub record DeliverArgs : Type 0 where
  pub path : Text
  pub compress : Bool
  pub label : Text

pub record ExecuteShellResult : Type 0 where
  pub exit_code : ℤ
  pub stdout : Text
  pub stderr : Text
  pub duration_ms : ℕ
  pub timed_out : Bool

pub record DeliverResult : Type 0 where
  pub object_key : Text
  pub basename : Text
  pub size_bytes : ℕ
  pub content_type : Text
  pub sha256_hex : Text
