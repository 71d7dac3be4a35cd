-- ===== src/Tools/Catalog.antt =====
-- `descriptors` of src/tools.rs, and the RPC `list_tools` that answers with them.
use scriptorium.Tools.Schemas.{
  execute_shell_schema, deliver_schema, copy_workspace_sandbox_to_execution_sandbox_schema,
  copy_execution_sandbox_to_workspace_sandbox_schema,
}
use scriptorium.Tools.Texts.{
  execute_shell_description, deliver_description,
  copy_workspace_sandbox_to_execution_sandbox_description,
  copy_execution_sandbox_to_workspace_sandbox_description,
}
use scriptorium.Error.{Status}
use scriptorium.World.{Io, pure}
use scriptorium.Base.{List, ◌∷◌, []}
use scriptorium.Tools.{
  ToolDescriptor, tool_execute_shell, tool_deliver,
  tool_copy_workspace_sandbox_to_execution_sandbox,
  tool_copy_execution_sandbox_to_workspace_sandbox,
}

-- The catalog that `ListTools` gives.
unfoldable pub descriptors : List ToolDescriptor
descriptors =
    record {
      name = tool_execute_shell;
      description = execute_shell_description;
      parameters_schema = execute_shell_schema;
    }
    ∷ record {
      name = tool_deliver;
      description = deliver_description;
      parameters_schema = deliver_schema;
    }
    ∷ record {
      name = tool_copy_workspace_sandbox_to_execution_sandbox;
      description = copy_workspace_sandbox_to_execution_sandbox_description;
      parameters_schema = copy_workspace_sandbox_to_execution_sandbox_schema;
    }
    ∷ record {
      name = tool_copy_execution_sandbox_to_workspace_sandbox;
      description = copy_execution_sandbox_to_workspace_sandbox_description;
      parameters_schema = copy_execution_sandbox_to_workspace_sandbox_schema;
    }
    ∷ []

-- The RPC `list_tools`.
unfoldable pub list_tools : Io Status (List ToolDescriptor)
list_tools = pure descriptors
