-- ===== src/Tests.antt =====
-- A concrete environment, in which the theorems are applied.
mod Paths
mod Containers
mod Transfers
mod Fetched
mod Kept
mod Started
mod Served
use scriptorium.Base.Int.{pos}
use scriptorium.Text.{codes}
use scriptorium.FilePath.{parent_dir, normal}
use scriptorium.Base.{◌∷◌, none, some, [], take, min, length, drop}
use scriptorium.Error.{ok, err, IoError, not_found, Code, unknown, of_error, io}
use scriptorium.World.Calls.{regular, granted, v4, Bytes, ArchiveEntry, Url, Env, status_code}

abbrev pub missing_file : IoError
missing_file = record { kind = not_found; text = codes "missing" }

abbrev pub file_bytes : Bytes
file_bytes = 1 ∷ 2 ∷ 3 ∷ 4 ∷ 5 ∷ []

-- `../x`
abbrev pub escaping_entry : ArchiveEntry
escaping_entry = record { path = parent_dir ∷ normal (codes "x") ∷ []; entry_type = regular }

abbrev pub some_url : Url
some_url = record {
  text = codes "http://a";
  scheme = codes "http";
  host = some (codes "a");
  port = none;
}

-- Everything succeeds; every file holds the same bytes, and a read gives all that there is room for.
abbrev pub test_env : Env
test_env = record {
  create_dir_all = λ h p. ok tt;
  remove_dir_all = λ h p. ok tt;
  remove_file = λ h p. ok tt;
  create_file = λ h p. ok tt;
  flush = λ h p. ok tt;
  sync_all = λ h p. ok tt;
  rename = λ h p q. ok tt;
  write_all = λ h p b. ok tt;
  metadata = λ h p. err missing_file;
  read_dir = λ h p. ok [];
  open_file = λ h p. ok tt;
  read = λ h p offset room.
      ok (take (min room (length (drop offset file_bytes))) (drop offset file_bytes));
  read_file = λ h p. ok file_bytes;
  set_permissions = λ h p mode. ok tt;
  chown = λ h p uid gid. ok tt;
  archive_entries = λ h p. ok (ok escaping_entry ∷ []);
  unpack_in = λ h p q. ok tt;
  pack = λ h p n q. ok tt;
  create_container = λ h name spec. ok (codes "c1");
  attach_container = λ h cid. ok [];
  start_container = λ h cid. ok tt;
  wait_container = λ h cid. status_code (pos 3);
  ping = λ h. ok tt;
  connect_unix = λ t n. ok tt;
  version = λ h. ok (some (codes "1"), none);
  put = λ h b k bytes. ok tt;
  create_multipart = λ h b k. ok (some (codes "u1"));
  upload_part = λ h u n b. ok (some (codes "tag"));
  complete_multipart = λ h k u ps. ok tt;
  presign_config = λ n. ok tt;
  presign = λ h k n. ok (codes "url");
  deadline = λ h n. none;
  parse_url = λ t. ok some_url;
  parse_ip = λ t. some (v4 8 8 8 8);
  build_client = λ n. ok tt;
  lookup_host = λ h t n. ok [];
  send = λ h u hs n. err (codes "refused");
  acquire = λ h. granted;
  available_permits = λ h. 10;
  io_status = λ e. record { code = unknown; detail = of_error (io e) };
  now = λ h. 0;
  sha256_hex = λ b. codes "00";
}
