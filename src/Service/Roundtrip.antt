-- ===== src/Service/Roundtrip.antt =====
-- A raw import and an export of the same path.
use scriptorium.Workspace.Containment.{IsCleanRoot}
use scriptorium.Workspace.Lexical.{IsPathClean}
use scriptorium.Service.Exported.{hash_reads-whole, bytes_of, export_stream-whole}
use scriptorium.Service.Received.{chunks_of}
use scriptorium.Oss.ContentType.{guess_content_type}
use scriptorium.Service.Stored.{IsApart}
use scriptorium.Service.Imported.{import_raw_stores}
use scriptorium.Text.{Text, codes}
use scriptorium.Service.Import.{
  ImportHeader, ImportPayload, ImportResponse, raw, do_import_workspace_object, header,
}
use scriptorium.Service.{SandboxService, name_or}
use scriptorium.Workspace.{resolve_path, validate_workspace_id, WorkspaceManager}
use scriptorium.Service.Archive.{sha256_file, transfer_temp_path}
use scriptorium.FilePath.{FilePath}
use scriptorium.Error.{Result, Status, ok}
use scriptorium.World.Calls.{Bytes, Env, History, opened, asked_metadata}
use scriptorium.Base.{
  List, ◌≡◌, Option, is_nil, ℕ, some, false, length, ◌∷◌, ◌<◌, ◌∙◌, none, arith, [], sym, ◌+◌, ◌≤◌,
  refl, subst,
}
use scriptorium.World.Store.{Contents, IsFileStore}
use scriptorium.Service.Export.{
  PreparedExport, export_stream, describe_payload, do_export_workspace_object, export_payload,
  ExportRequest,
}

id_nonempty :
    (clean : FilePath → FilePath) (m : WorkspaceManager) (id relative : Text) (target : FilePath)
    → resolve_path clean m id relative ≡ ok target
    → is_nil id ≡ false
unfolding resolve_path validate_workspace_id
id_nonempty clean m [] relative target e = absurd (ground (arith, e))
id_nonempty clean m (x ∷ id) relative target e = refl

-- What was prepared of a file tells its path, its size and its hash.
abbrev pub IsPrepared : Env → FilePath → Bytes → PreparedExport → Type 0
IsPrepared env path bytes p =
    (p.payload_path ≡ path)
    × (p.header.size_bytes ≡ length bytes)
    × (p.header.sha256_hex ≡ env.sha256_hex bytes)

module _ (env : Env) (c : Contents) (store : IsFileStore env c) (svc : SandboxService)
    (clean : FilePath → FilePath) (temp_dir : FilePath) (bytes : Bytes) where
  describe_payload-IsPrepared :
      (fuel : ℕ) (req : ExportRequest) (path : FilePath) (basename content_type : Text)
      (cleanup : Option FilePath) (h : History)
      → c h path ≡ some bytes
      → length bytes < fuel
      → (h' : History) × (p : PreparedExport) × (describe_payload env svc clean temp_dir fuel req
            (path, basename, content_type, cleanup)
            h
          ≡ (h', ok p))
        × IsPrepared env path bytes p
        × (c h' path ≡ some bytes)
  unfolding describe_payload sha256_file
  describe_payload-IsPrepared fuel req path basename content_type cleanup h held enough =
      let (meta, m, _, size) = store.finds h path bytes held in
      let h₁ = asked_metadata path ∷ h in
      let held₁ = store.leaves.quiet h (asked_metadata path) path tt ∙ held in
      let o = store.opens h₁ path bytes held₁ in
      let held₂ = store.leaves.quiet h₁ (opened path) path tt ∙ held₁ in
      let (h', e, held') =
        hash_reads-whole env c store path bytes fuel 0 [] (opened path ∷ h₁) held₂ refl enough in
      (
        h',
        record {
          header = record {
            source_path = req.source_path;
            basename = basename;
            encoding = req.encoding;
            content_type = content_type;
            size_bytes = meta.len;
            sha256_hex = env.sha256_hex bytes;
          };
          payload_path = path;
          cleanup = cleanup;
        },
        ground (arith, m, o, e),
        (refl, size, refl),
        held',
      )

  do_export-IsPrepared :
      (fuel : ℕ) (req : ExportRequest) (target : FilePath) (h : History)
      → req.encoding ≡ raw
      → resolve_path clean svc.workspaces req.workspace_id req.source_path ≡ ok target
      → c h target ≡ some bytes
      → length bytes < fuel
      → (h' : History) × (p : PreparedExport) × (do_export_workspace_object env svc clean temp_dir
            fuel req h
          ≡ (h', ok p))
        × IsPrepared env target bytes p
        × (c h' target ≡ some bytes)
  unfolding do_export_workspace_object export_payload
  do_export-IsPrepared fuel req target h is_raw resolved held enough =
      let named =
        id_nonempty clean svc.workspaces req.workspace_id req.source_path target resolved in
      let (meta, m, is_file, _) = store.finds h target bytes held in
      let h₁ = asked_metadata target ∷ h in
      let held₁ = store.leaves.quiet h (asked_metadata target) target tt ∙ held in
      let (h', p, e, prepared, held') =
        describe_payload-IsPrepared fuel req target (name_or "artifact" target)
          (guess_content_type target) none h₁ held₁ enough in
      (h', p, ground (arith, named, resolved, is_raw, m, is_file, e), prepared, held')

-- What is imported raw is exported raw. After an import of chunks that succeeded, `export` of the
-- same path, with more fuel than they have bytes, is prepared with the size and the hash of the
-- chunks' bytes; and its stream, polled at least twice more than they have bytes, gives no error and
-- exactly these bytes. The target is not named like a staging file of the import, the manager's root
-- is absolute and holds neither `.` nor `..`, and the file system keeps the laws of `IsFileStore`: it
-- keeps what it is given, and its reads do not fail.
pub import_export_raw :
    (env : Env) (c : Contents) (svc : SandboxService) (clean : FilePath → FilePath)
    (temp_dir : FilePath) (head : ImportHeader) (messages : List (Result Status ImportPayload))
    (target : FilePath) (h h' : History) (resp : ImportResponse) (bytes : Bytes) (fuel polls : ℕ)
    → IsFileStore env c
    → IsPathClean clean
    → (ns : FilePath) → IsCleanRoot svc.workspaces ns
    → head.encoding ≡ raw
    → resolve_path clean svc.workspaces head.workspace_id head.target_path ≡ ok target
    → ((nanos : ℕ) → IsApart (transfer_temp_path target (codes "import") nanos) target)
    → chunks_of messages ≡ some bytes
    → do_import_workspace_object env svc clean (ok (header head) ∷ messages) h ≡ (h', ok resp)
    → length bytes < fuel
    → length bytes + 2 ≤ polls
    → (h₁ : History) × (p : PreparedExport) × (do_export_workspace_object env svc clean temp_dir
          fuel
          (record {
            workspace_id = head.workspace_id;
            source_path = head.target_path;
            encoding = raw;
          })
          h'
        ≡ (h₁, ok p))
      × IsPrepared env target bytes p
      × (bytes_of (export_stream env polls p h₁).1 ≡ some bytes)
import_export_raw env c svc clean temp_dir head messages target h h' resp bytes fuel polls store
      laws ns root is_raw resolved apart all_chunks e enough polled =
    let (_, (stored, _)) =
      import_raw_stores env c store svc clean laws ns root head messages target h h' resp bytes
        is_raw resolved apart all_chunks e in
    let (h₁, p, e', prepared, held) =
      do_export-IsPrepared env c store svc clean temp_dir bytes fuel
        (record {
          workspace_id = head.workspace_id;
          source_path = head.target_path;
          encoding = raw;
        })
        target h' refl resolved stored enough in
    (
      h₁,
      p,
      e',
      prepared,
      export_stream-whole env c store bytes p polls h₁
          (subst (λ q. c h₁ q ≡ some bytes) (sym prepared.0) held) polled,
    )
