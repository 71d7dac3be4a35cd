-- ===== src/Tools/Schemas.antt =====
-- The JSON schemas of src/tools.rs, in pieces of at most a line.
use scriptorium.Text.{Text}
use scriptorium.Base.{[], ◌∷◌}
use scriptorium.Tools.Texts.{joined_pieces}

unfoldable pub execute_shell_schema : Text
execute_shell_schema = joined_pieces (
    "{\n" ∷ "  \"type\": \"object\",\n" ∷ "  \"properties\": {\n" ∷ "    \"command\": {\n"
    ∷ "      \"type\": \"string\",\n"
    ∷ "      \"description\": \"Shell command to run, executed via `bash -lc` in $HOME. "
    ∷ "Multi-line commands and pipelines are fine.\"\n" ∷ "    },\n"
    ∷ "    \"timeout_seconds\": {\n" ∷ "      \"type\": \"integer\",\n" ∷ "      \"minimum\": 1,\n"
    ∷ "      \"description\": \"Hard wall-clock timeout. Omit or 0 for the server "
    ∷ "default (300s).\"\n" ∷ "    },\n" ∷ "    \"env\": {\n" ∷ "      \"type\": \"object\",\n"
    ∷ "      \"additionalProperties\": { \"type\": \"string\" },\n"
    ∷ "      \"description\": \"Extra environment variables for this call only. Layered "
    ∷ "on top of the container's base env.\"\n" ∷ "    },\n" ∷ "    \"heavy\": {\n"
    ∷ "      \"type\": \"boolean\",\n"
    ∷ "      \"description\": \"Set true ONLY when this specific call genuinely needs "
    ∷ "more than the default 2 GiB RAM / 2 CPU cores — e.g., Chromium driving many "
    ∷ "tabs or rich pages, pandas on a >100 MB dataset, ffmpeg video encoding, "
    ∷ "large-model inference. Raises the caps to 8 GiB / 4 cores for this one call. "
    ∷ "Default false. Most calls (shell plumbing, curl, small scripts, lightweight "
    ∷ "Python) should leave this unset — the default budget is plenty and keeping it "
    ∷ "light lets other execs run in parallel.\"\n" ∷ "    }\n" ∷ "  },\n"
    ∷ "  \"required\": [\"command\"]\n" ∷ "}" ∷ [])

unfoldable pub deliver_schema : Text
deliver_schema = joined_pieces (
    "{\n" ∷ "  \"type\": \"object\",\n" ∷ "  \"properties\": {\n" ∷ "    \"path\": {\n"
    ∷ "      \"type\": \"string\",\n"
    ∷ "      \"description\": \"Workspace-relative path (file or directory) to upload. "
    ∷ "Directories are tar.gz'd automatically.\"\n" ∷ "    },\n" ∷ "    \"compress\": {\n"
    ∷ "      \"type\": \"boolean\",\n"
    ∷ "      \"description\": \"When true, single files are gzipped before upload. "
    ∷ "Ignored for directories (they are always tar.gz'd).\"\n" ∷ "    },\n" ∷ "    \"label\": {\n"
    ∷ "      \"type\": \"string\",\n"
    ∷ "      \"description\": \"Optional short human-readable tag stored as object "
    ∷ "metadata; useful for auditing / cataloging in the bucket.\"\n" ∷ "    }\n" ∷ "  },\n"
    ∷ "  \"required\": [\"path\"]\n" ∷ "}" ∷ [])

unfoldable pub copy_workspace_sandbox_to_execution_sandbox_schema : Text
copy_workspace_sandbox_to_execution_sandbox_schema = joined_pieces (
    "{\n" ∷ "  \"type\": \"object\",\n" ∷ "  \"properties\": {\n" ∷ "    \"source_path\": {\n"
    ∷ "      \"type\": \"string\",\n"
    ∷ "      \"description\": \"Workspace-relative source path under `sandbox/`. May "
    ∷ "point to a file or a directory.\"\n" ∷ "    },\n" ∷ "    \"target_path\": {\n"
    ∷ "      \"type\": \"string\",\n"
    ∷ "      \"description\": \"Destination path inside the execution sandbox "
    ∷ "workspace. Files land exactly here; directories are extracted so this path "
    ∷ "becomes the copied directory root.\"\n" ∷ "    }\n" ∷ "  },\n"
    ∷ "  \"required\": [\"source_path\", \"target_path\"]\n" ∷ "}" ∷ [])

unfoldable pub copy_execution_sandbox_to_workspace_sandbox_schema : Text
copy_execution_sandbox_to_workspace_sandbox_schema = joined_pieces (
    "{\n" ∷ "  \"type\": \"object\",\n" ∷ "  \"properties\": {\n" ∷ "    \"source_path\": {\n"
    ∷ "      \"type\": \"string\",\n"
    ∷ "      \"description\": \"Path inside the execution sandbox to copy from.\"\n" ∷ "    },\n"
    ∷ "    \"source_kind\": {\n" ∷ "      \"type\": \"string\",\n"
    ∷ "      \"enum\": [\"file\", \"directory\"],\n"
    ∷ "      \"description\": \"Whether source_path points to a file or a directory.\"\n"
    ∷ "    },\n" ∷ "    \"target_path\": {\n" ∷ "      \"type\": \"string\",\n"
    ∷ "      \"description\": \"Workspace-relative destination path under `sandbox/`.\"\n"
    ∷ "    }\n" ∷ "  },\n" ∷ "  \"required\": [\"source_path\", \"source_kind\", \"target_path\"]\n"
    ∷ "}" ∷ [])
