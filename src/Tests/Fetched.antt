-- ===== src/Tests/Fetched.antt =====
-- A download into a workspace, an import and an upload from one.
use scriptorium.Service.Delivered.{do_upload_contained}
use scriptorium.Service.Uploaded.{IsUploadCall}
use scriptorium.World.Trace.{Adds}
use scriptorium.Service.Received.{IsWrite, chunks_of, receive_chunks_writes}
use scriptorium.Service.Import.{receive_chunks, ImportPayload, chunk, header, raw}
use scriptorium.Fetch.Address.{is_disallowed}
use scriptorium.Workspace.Lexical.{walk}
use scriptorium.Service.Fetched.{do_fetch_contained}
use scriptorium.Workspace.Containment.{home_names}
use scriptorium.Tests.Paths.{clean_by_walk, clean_by_walk-IsPathClean, srv, srv-IsCleanRoot}
use scriptorium.Tests.Containers.{service}
use scriptorium.FilePath.Laws.{IsNormal}
use scriptorium.Workspace.{
  ensure_home, resolve_path, validate_workspace_id, id_byte, home_dir, workspace_dir,
}
use scriptorium.Text.{codes, bytes, utf8_char, text_eq}
use scriptorium.Tests.{test_env}
use scriptorium.FilePath.{FilePath, components, join, starts_with, parent, normal}
use scriptorium.Service.{do_fetch, do_upload}
use scriptorium.Fetch.{
  FetchOutcome, fetch_to_file, save_response, write_body, send, assert_public_host, check_host,
}
use scriptorium.World.Calls.{HttpResponse, Env, History, set_mode, Bytes}
use scriptorium.Base.{◌⊎◌, refl, ◌∷◌, ◌++◌, ◌≡◌, none, All, [], List, some, false, true}
use scriptorium.Error.{ok, Result, Status, err}

abbrev answer : HttpResponse
answer = record { status = 200; content_type = none; body = ok (1 ∷ 2 ∷ []) ∷ [] }

-- The server answers.
abbrev serving : Env
serving = record test_env { send = λ h u hs n. ok answer }

abbrev fetched : FetchOutcome
fetched = record {
  bytes_written = 2;
  content_type = codes "application/octet-stream";
  http_status = 200;
}

abbrev fetching : History × Result Status FetchOutcome
fetching =
    do_fetch serving service clean_by_walk (codes "w1") (codes "http://a") (codes "b") [] 0 []

fetching-ok : fetching ≡ (fetching.0, ok fetched)
unfolding do_fetch ensure_home resolve_path validate_workspace_id id_byte bytes utf8_char components
    join walk starts_with fetch_to_file save_response write_body send home_dir workspace_dir parent
    text_eq assert_public_host check_host is_disallowed
fetching-ok = refl

do_fetch_contained_example :
    (rest : FilePath) × (before after : History) × All IsNormal rest
    × (fetch_to_file serving service.fetch_cfg
          (codes "http://a")
          (service.workspaces.root ++ home_names (codes "w1") ++ rest)
          []
          60
          before
        ≡ (after, ok fetched))
    × (fetching.0
        ≡ set_mode (service.workspaces.root ++ home_names (codes "w1") ++ rest) 0o644 ∷ after)
do_fetch_contained_example =
    do_fetch_contained serving service clean_by_walk clean_by_walk-IsPathClean srv srv-IsCleanRoot
      (codes "w1") (codes "http://a") (codes "b") [] 0 [] fetching.0 fetched fetching-ok

-- The second header is refused.
abbrev messages : List (Result Status ImportPayload)
messages =
    ok (chunk (1 ∷ []))
    ∷ ok
        (header (record { workspace_id = []; target_path = []; encoding = raw; content_type = [] }))
    ∷ []

receive_chunks_writes_example :
    let s = receive_chunks serving service clean_by_walk (normal (codes "t") ∷ []) messages 0 [] in
    ((new : History) × (s.0 ≡ new ++ []) × All (IsWrite (normal (codes "t") ∷ [])) new)
    × (((bytes : Bytes) × (chunks_of messages ≡ some bytes)) ⊎ ((e : Status) × (s.1 ≡ err e)))
receive_chunks_writes_example =
    receive_chunks_writes serving service clean_by_walk (normal (codes "t") ∷ []) messages 0 []

-- The file is there.
abbrev holding : Env
holding = record test_env {
  metadata = λ h p. ok (record { is_dir = false; len = 5; mode = 0o644; modified = none });
}

do_upload_contained_example :
    let s =
      do_upload holding service clean_by_walk 9 []
        (codes "w1")
        (codes "t1")
        (codes "f")
        true
        []
        [] in
    ((s.0 ≡ []) × ((e : Status) × (s.1 ≡ err e)))
    ⊎ ((rest : FilePath) × All IsNormal rest
        × Adds
            (IsUploadCall [] (service.workspaces.root ++ home_names (codes "w1") ++ rest))
            []
            s.0)
do_upload_contained_example =
    do_upload_contained holding service clean_by_walk clean_by_walk-IsPathClean srv srv-IsCleanRoot
      9 [] (codes "w1") (codes "t1") (codes "f") true [] []
