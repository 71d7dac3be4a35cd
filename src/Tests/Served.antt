-- ===== src/Tests/Served.antt =====
-- Handlers side by side, and uploads as a whole.

use scriptorium.Service.Within.Import.{do_import_contained}
use scriptorium.Service.Within.{IsWithin}
use scriptorium.Service.Import.{ImportHeader, do_import_workspace_object, tar_gz, header}
use scriptorium.Service.Within.Isolation.{workspaces_isolated}
use scriptorium.Service.Within.Archive.{ListsInside, IsListedIn}
use mathlib.Core.List.{cons-ne-nil}
use scriptorium.Workspace.{home_dir, workspace_dir}
use scriptorium.Tests.Transfers.{file_bytes-IsFile, small_parts}
use scriptorium.Tests.Kept.{
  target, target-resolved, kept, keeping, head, messages, keeping-LeavesOthers,
}
use scriptorium.Oss.Stored.{StaysReadable}
use scriptorium.Tests.Paths.{clean_by_walk, clean_by_walk-IsPathClean, srv, srv-IsCleanRoot}
use scriptorium.Oss.Key.{build_key_at}
use scriptorium.Service.UploadedObject.{IsUploaded, do_upload_stores}
use scriptorium.Error.{ok, Result, IoError, err}
use scriptorium.FilePath.{file_name, join, components, FilePath, normal}
use scriptorium.Text.{Text, codes}
use scriptorium.Service.Confined.Handlers.{exec_containers-AreSandboxed, under_permit_sandboxes}
use scriptorium.Service.Lifecycle.Streamed.{streamed_run, exec_stream_rpc-Lives}
use scriptorium.Service.Concurrency.Phases.{under_way}
use scriptorium.Service.Permits.{under_permit}
use scriptorium.World.Calls.{acquired_permit, Call, released_permit, History, Env, DirEntry}
use scriptorium.Service.Concurrency.Capacity.{total, exec_permits_bound}
use scriptorium.Tests.Containers.{service, request, turns}
use scriptorium.Service.Confined.{IsSandboxedCall}
use scriptorium.Tests.{test_env, file_bytes, missing_file}
use scriptorium.Service.Concurrency.Progress.{Drains, exec_handlers_drain}
use scriptorium.Base.{
  ◌+◌, ◌∷◌, [], List, ◌≡◌, arith, some, ◌≤◌, ◌⊎◌, ◌++◌, none, ap, ℕ, false, length, refl, ◌≢◌, All,
  subst,
}
use scriptorium.Service.{
  do_exec_oneshot, acquire_exec_permit, do_upload, do_fetch, delete_workspace, SandboxService,
}
use scriptorium.Service.Concurrency.{
  Handler, Server, Reach, makes, stepped, oneshot, begin, arrive, whole_run, one_move, move,
  take_one, holds,
}
use scriptorium.World.Trace.{Adds}
use scriptorium.Service.Lifecycle.{Lives, outside, Phase, Finishes}

exec_stream_rpc-Lives_example :
    Finishes test_env [] (streamed_run test_env service request (some turns) [])
    ⊎ ((some turns ≡ none)
        × ((cid : Text) × (g : History) × Lives test_env outside [] (Phase.running cid) g
            × (streamed_run test_env service request (some turns) [] ≡ released_permit ∷ g)))
exec_stream_rpc-Lives_example = exec_stream_rpc-Lives test_env service request (some turns) []

exec_containers-AreSandboxed_example :
    Adds (IsSandboxedCall service request) [] (do_exec_oneshot test_env service request []).0
    × Adds
        (IsSandboxedCall service request)
        []
        (streamed_run test_env service request (some turns) [])
exec_containers-AreSandboxed_example =
    exec_containers-AreSandboxed test_env service request (some turns) []

-- One `exec` has just come, and another has its permit.
abbrev fresh : Handler
fresh = record { env = test_env; req = request; body = oneshot; done = [] }

abbrev holder : Handler
holder = makes fresh acquired_permit

abbrev busy : Server
busy = (9, fresh ∷ holder ∷ [])

first_holds : (rest : List Call) × (whole_run service fresh ≡ rest ++ acquired_permit ∷ [])
unfolding do_exec_oneshot acquire_exec_permit under_permit
first_holds =
    let (new, e, _) = under_permit_sandboxes test_env service request (acquired_permit ∷ []) in
    (released_permit ∷ new, ap (λ g. released_permit ∷ g) e)

busy-Reach : Reach service busy
busy-Reach =
    let (rest, e) = first_holds in
    stepped
      (stepped (stepped begin (arrive test_env request oneshot))
        (one_move (move [] fresh [] acquired_permit rest e take_one)))
      (arrive test_env request oneshot)

exec_permits_bound_example : (9 + total holds busy.1 ≡ 10) × (total under_way busy.1 ≤ 10)
exec_permits_bound_example = exec_permits_bound service busy busy-Reach

exec_handlers_drain_example : Drains service busy
exec_handlers_drain_example = exec_handlers_drain service busy busy-Reach (omega arith)

abbrev upload_env : Env
upload_env = record test_env {
  metadata =
      λ h p. ok (record { is_dir = false; len = length file_bytes; mode = 0o644; modified = none });
}

readable : StaysReadable upload_env target file_bytes
readable = record {
  found = λ h. (
    record { is_dir = false; len = length file_bytes; mode = 0o644; modified = none },
    refl,
    refl,
    refl,
  );
  opens = λ h. refl;
  reads_whole = λ h. refl;
  reads = record { some_bytes = (file_bytes-IsFile target).some_bytes };
}

-- Five bytes go up in three parts.
abbrev small_service : SandboxService
small_service = record service { oss = small_parts }

do_upload_stores_example :
    (nanos : ℕ) × IsUploaded upload_env small_service target file_bytes
      (build_key_at (codes "sandbox/") (codes "t1") (codes "w1") (codes "f") nanos)
      (do_upload upload_env small_service clean_by_walk 6 []
        (codes "w1")
        (codes "t1")
        (codes "f")
        false
        []
        [])
unfolding file_name home_dir join workspace_dir components
do_upload_stores_example =
    do_upload_stores upload_env small_service clean_by_walk
      (λ key. record {
        puts = λ h bytes. refl;
        creates = λ h. (codes "u1", refl);
        uploads = λ h u n bytes numbered. (some (codes "tag"), refl);
        completes = λ h u parts listed. refl;
        in_time = λ h. refl;
      })
      (omega arith) target file_bytes readable 6 [] (codes "w1") (codes "t1") (codes "f") [] []
      (cons-ne-nil _ _) target-resolved (omega arith) (omega arith)

listed :
    (p : FilePath) (entries : List (Result IoError DirEntry))
    → keeping.read_dir [] p ≡ ok entries
    → All (IsListedIn p) entries
listed p entries e =
    subst (All (IsListedIn p))
      {x = ok (record { path = p ++ (normal (codes "a") ∷ []); meta = err missing_file }) ∷ []}
      (ground (arith, e)) ((codes "a", refl), tt)

keeping-ListsInside : ListsInside keeping
keeping-ListsInside = record { inside = λ h p entries e. listed p entries e }

abbrev archive : ImportHeader
archive = record head { encoding = tar_gz }

do_import_contained_example :
    Adds
      (IsWithin (service.workspaces.root ++ (normal (codes "w1") ∷ [])))
      []
      (do_import_workspace_object keeping service clean_by_walk
        (ok (header archive) ∷ messages)
        []).0
do_import_contained_example =
    do_import_contained keeping keeping-ListsInside service clean_by_walk clean_by_walk-IsPathClean
      srv srv-IsCleanRoot archive messages []

w2-differs : codes "w2" ≢ codes "w1"
w2-differs e = ground (arith, e)

abbrev w2_file : FilePath
w2_file = service.workspaces.root ++ normal (codes "w2") ∷ normal (codes "f") ∷ []

workspaces_isolated_example :
    (kept
        (do_import_workspace_object keeping service clean_by_walk
          (ok (header archive) ∷ messages)
          []).0
        w2_file
      ≡ kept [] w2_file)
    × (kept
          (do_fetch keeping service clean_by_walk
            (codes "w1")
            (codes "http://a")
            (codes "f")
            []
            0
            []).0
          w2_file
        ≡ kept [] w2_file)
    × (kept (delete_workspace keeping service (codes "w1") []).0 w2_file ≡ kept [] w2_file)
workspaces_isolated_example =
    workspaces_isolated keeping keeping-ListsInside kept keeping-LeavesOthers service clean_by_walk
      clean_by_walk-IsPathClean srv srv-IsCleanRoot archive messages (codes "http://a") (codes "f")
      [] 0 (codes "w2") (normal (codes "f") ∷ []) [] w2-differs (tt, tt)
