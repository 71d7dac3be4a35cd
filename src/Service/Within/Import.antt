-- ===== src/Service/Within/Import.antt =====
-- What an import may touch.
use scriptorium.Workspace.Homes.{ensure_home-Makes}
use scriptorium.Service.Within.Replace.{replace_directory-Makes}
use scriptorium.Service.Archive.{
  replace_workspace_file_from_staging, replace_workspace_directory_from_archive_path, parent_or_dot,
  build_workspace_transfer_temp_path, transfer_temp_path,
}
use scriptorium.Service.Imported.{fill_staging}
use scriptorium.World.Fs.{write_all, remove_file, create_file, flush, create_dir_all}
use scriptorium.World.Trace.{
  Makes, Makes-lift, Makes-result, Makes-then, Makes-one, Makes-bind, Makes-answer, Adds, answered,
}
use scriptorium.Service.Within.{
  IsBelow, IsWithin, IsInside, parent_or_dot-IsBelow, transfer_temp_path-IsBelow, workspace_at,
  home_within, target-IsInside,
}
use scriptorium.Error.{IoError, Result, ok, Status, err, status_of}
use scriptorium.Workspace.{resolve_path, ensure_home}
use scriptorium.Workspace.Ids.{IsWorkspaceId}
use scriptorium.Service.Import.{
  receive_chunks, place_import, ImportHeader, Encoding, ImportPayload, raw, tar_gz, unspecified,
  header, chunk, saturating_add, missing, ImportResponse, receive_import,
  do_import_workspace_object,
}
use scriptorium.World.{Io, lift_file, ignore, lift_status, ◌>>◌, of_result}
use scriptorium.Base.{◌++◌, List, ◌∷◌, [], ℕ, length, subst, arith}
use scriptorium.Text.{Text, codes}
use scriptorium.Workspace.Containment.{IsCleanRoot}
use scriptorium.Workspace.Lexical.{IsPathClean}
use scriptorium.FilePath.{FilePath, normal}
use scriptorium.Service.{SandboxService, resolve}
use scriptorium.Service.Within.Archive.{ListsInside, replace_file-Makes}
use scriptorium.World.Calls.{
  Env, wrote, created_file, removed_file, flushed, History, created_dir_all, read_clock,
}

module _ (env : Env) (lists : ListsInside env) (svc : SandboxService) (clean : FilePath → FilePath)
    (laws : IsPathClean clean) (ns : FilePath) (root : IsCleanRoot svc.workspaces ns)
    (id : Text) where
  -- The directory of the workspace.
  abbrev dir : FilePath
  dir = workspace_at svc.workspaces id

  file-Makes :
      {A : Type 0} (m : Io IoError A)
      → Makes (IsWithin dir) m
      → Makes (IsWithin dir) (lift_file env m)
  file-Makes m made = Makes-lift env.io_status m made

  ignored-Makes :
      {A : Type 0} (m : Io IoError A)
      → Makes (IsWithin dir) m
      → Makes (IsWithin dir) (ignore {F = Status} m)
  ignored-Makes m made = record { makes = made.makes }

  receive_chunks-Makes :
      (staging : FilePath) (messages : List (Result Status ImportPayload)) (n : ℕ)
      → IsBelow dir staging
      → Makes (IsWithin dir) (receive_chunks env svc clean staging messages n)
  unfolding receive_chunks
  receive_chunks-Makes staging [] n below = Makes-result (ok n)
  receive_chunks-Makes staging (err status ∷ rest) n below = Makes-result (err status)
  receive_chunks-Makes staging (ok (header _) ∷ rest) n below = Makes-result (err _)
  receive_chunks-Makes staging (ok missing ∷ rest) n below = Makes-result (err _)
  receive_chunks-Makes staging (ok (chunk bytes) ∷ rest) n below =
      Makes-then (lift_file env (write_all env staging bytes)) _
        (file-Makes (write_all env staging bytes) (Makes-one (wrote staging bytes) _ below))
        (receive_chunks-Makes staging rest (saturating_add n (length bytes)) below)

  -- The staging file is removed, and then there is an answer.
  removed_then :
      (staging : FilePath) (answer : Result Status ImportResponse)
      → IsBelow dir staging
      → Makes (IsWithin dir) (ignore {F = Status} (remove_file env staging) >> of_result answer)
  removed_then staging answer below =
      Makes-then (ignore {F = Status} (remove_file env staging)) _
        (ignored-Makes (remove_file env staging) (Makes-one (removed_file staging) _ below))
        (Makes-result answer)

  place_import-Makes :
      (head : ImportHeader) (encoding : Encoding) (staging target : FilePath) (n : ℕ)
      → IsBelow dir staging
      → IsInside dir target
      → Makes
          (IsWithin dir)
          (place_import env svc clean (record head { encoding = encoding }) staging target n)
  unfolding place_import
  place_import-Makes head raw staging target n below inside =
      Makes-then (lift_status (replace_workspace_file_from_staging env staging target)) _
        (Makes-lift status_of (replace_workspace_file_from_staging env staging target)
          (replace_file-Makes env dir staging target below inside))
        (removed_then staging _ below)
  place_import-Makes head tar_gz staging target n below inside =
      Makes-then (lift_status (replace_workspace_directory_from_archive_path env staging target)) _
        (Makes-lift status_of (replace_workspace_directory_from_archive_path env staging target)
          (replace_directory-Makes env lists dir staging target below inside))
        (removed_then staging _ below)
  place_import-Makes head unspecified staging target n below inside = removed_then staging _ below

  -- From the target on.
  fill_and_place-Makes :
      (head : ImportHeader) (messages : List (Result Status ImportPayload))
      (staging target : FilePath)
      → IsBelow dir staging
      → IsInside dir target
      → Makes (IsWithin dir) (fill_staging env svc clean head messages staging target)
  unfolding fill_staging
  fill_and_place-Makes head messages staging target below inside =
      Makes-then (lift_file env (create_file env staging)) _
        (file-Makes (create_file env staging) (Makes-one (created_file staging) _ below))
        (Makes-bind (receive_chunks env svc clean staging messages 0) _
          (receive_chunks-Makes staging messages 0 below)
          (λ written.
            Makes-then (lift_file env (flush env staging)) _
              (file-Makes (flush env staging) (Makes-one (flushed staging) _ below))
              (place_import-Makes head head.encoding staging target written below inside)))

module _ (env : Env) (lists : ListsInside env) (svc : SandboxService) (clean : FilePath → FilePath)
    (laws : IsPathClean clean) (ns : FilePath) (root : IsCleanRoot svc.workspaces ns)
    (head : ImportHeader) where
  abbrev here_dir : FilePath
  here_dir = workspace_at svc.workspaces head.workspace_id

  receive_import-Makes :
      (messages : List (Result Status ImportPayload))
      → Makes (IsWithin here_dir) (receive_import env svc clean head messages)
  unfolding receive_import fill_staging
  receive_import-Makes messages =
      let id = head.workspace_id in
      let cfg = svc.sandbox_cfg in
      let home = ensure_home env svc.workspaces id cfg.agent_uid cfg.agent_gid in
      let homely = λ (valid : IsWorkspaceId id). home_within svc.workspaces id valid in
      Makes-bind (lift_status home) _
        (Makes-lift status_of home (
          ensure_home-Makes env svc.workspaces id cfg.agent_uid cfg.agent_gid
            (λ valid. (homely valid, homely valid, homely valid))))
        (λ _.
          Makes-answer (resolve env svc clean id head.target_path) _ (Makes-result _) (λ h target e.
            let inside =
              target-IsInside svc.workspaces clean laws ns root id head.target_path target (
                answered status_of (resolve_path clean svc.workspaces id head.target_path) target
                  e) in
            Makes-then (lift_file env (create_dir_all env (parent_or_dot target))) _
              (Makes-lift env.io_status (create_dir_all env (parent_or_dot target)) (
                Makes-one (created_dir_all (parent_or_dot target)) _
                  (parent_or_dot-IsBelow here_dir target inside)))
              (Makes-answer
                (lift_status (build_workspace_transfer_temp_path env target (codes "import"))) _
                (Makes-lift status_of
                  (build_workspace_transfer_temp_path env target (codes "import"))
                  (Makes-one read_clock _ tt))
                (λ g staging e'.
                  fill_and_place-Makes env lists svc clean laws ns root id head messages staging
                    target
                    (subst (IsBelow here_dir)
                      {x = transfer_temp_path target (codes "import") (env.now g)}
                      (ground (arith, e'))
                      (transfer_temp_path-IsBelow here_dir target (codes "import") (env.now g)
                        inside))
                    inside))))

  -- Whatever an import is sent, archives included, and however it ends, all that it asks of the file
  -- system lies in the directory of its workspace: every path that it names is that directory, or is it
  -- followed by names only, so no `..` leads out of it, and what is unpacked there is relative and
  -- without `..`. The manager's root is absolute and holds neither `.` nor `..`, and a listing gives
  -- paths in the directory that it is of.
  pub do_import_contained :
      (messages : List (Result Status ImportPayload)) (h : History)
      → Adds
          (IsWithin (svc.workspaces.root ++ (normal head.workspace_id ∷ [])))
          h
          (do_import_workspace_object env svc clean (ok (header head) ∷ messages) h).0
  unfolding do_import_workspace_object
  do_import_contained messages h = (receive_import-Makes messages).makes h
