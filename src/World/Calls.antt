-- ===== src/World/Calls.antt =====
-- What the service asks of the code that it does not implement: the file system, Docker (bollard),
-- the object store (aws-sdk-s3), HTTP and DNS (reqwest, tokio), tar, the exec semaphore and the
-- clock. A `Call` is a request; a `History` holds those made so far, the latest first. An `Env`
-- answers each request by any function of the history.
use scriptorium.Base.{ℕ, Bool, List, Option}
use scriptorium.Base.Int.{ℤ}
use scriptorium.Text.{Text}
use scriptorium.FilePath.{FilePath}
use scriptorium.Error.{IoError, Result, Status}

abbrev pub Bytes : Type 0
Bytes = List ℕ

-- What `create_container` puts into `ContainerCreateBody` and `HostConfig`; fields that it leaves
-- at `Default::default()` are left out.
pub record ContainerSpec : Type 0 where
  pub image : Text
  pub user_uid : ℕ
  pub user_gid : ℕ
  pub working_dir : Text
  pub cmd : List Text
  pub env : List Text
  pub auto_remove : Bool
  pub binds : List Text
  pub memory : ℤ
  pub nano_cpus : ℤ
  pub pids_limit : ℤ
  pub readonly_rootfs : Bool
  pub tmpfs : List (Text × Text)
  pub network_mode : Text
  pub attach_stdout : Bool
  pub attach_stderr : Bool
  pub tty : Bool

-- One entry of `CompletedMultipartUpload`; its number is an `i32`, here by its 32 bits.
pub record CompletedPart : Type 0 where
  pub part_number : ℕ
  pub e_tag : Option Text

-- What the sources read of a parsed URL: `port_or_known_default` is `port`.
pub record Url : Type 0 where
  pub text : Text
  pub scheme : Text
  pub host : Option Text
  pub port : Option ℕ

pub data Call : Type 0 where
  created_dir_all removed_dir_all removed_file created_file flushed synced : FilePath → Call
  renamed : FilePath → FilePath → Call
  wrote : FilePath → Bytes → Call
  asked_metadata listed_dir opened : FilePath → Call
  read_at : FilePath → ℕ → Call
  read_whole : FilePath → Call
  set_mode : FilePath → ℕ → Call
  chowned : FilePath → ℕ → ℕ → Call
  read_archive : FilePath → Call
  unpacked : FilePath → FilePath → Call
  packed_dir packed_file : FilePath → Text → FilePath → Call
  created_container : Text → ContainerSpec → Call
  attached_container started_container waited_container killed_container : Text → Call
  removed_container : Text → Call
  pinged asked_version : Call
  put_object : Text → Text → Bytes → Text → Option Text → Call
  created_multipart : Text → Text → Text → Option Text → Call
  uploaded_part : Text → Text → Text → ℕ → Bytes → Call
  completed_multipart : Text → Text → Text → List CompletedPart → Call
  aborted_multipart : Text → Text → Text → Call
  presigned : Text → Text → ℕ → Call
  looked_up : Text → ℕ → Call
  sent_request : Url → List (Text × Text) → ℕ → Call
  acquired_permit released_permit : Call
  read_clock : Call

abbrev pub History : Type 0
History = List Call

pub record Metadata : Type 0 where
  pub is_dir : Bool
  pub len : ℕ
  pub mode : ℕ
  -- Seconds since the epoch; `none` where the time is not known or lies before it.
  pub modified : Option ℕ

pub record DirEntry : Type 0 where
  pub path : FilePath
  pub meta : Result IoError Metadata

pub data EntryType : Type 0 where
  regular directory other_type : EntryType

pub record ArchiveEntry : Type 0 where
  pub path : FilePath
  pub entry_type : EntryType

-- `bollard::container::LogOutput`
pub data LogOutput : Type 0 where
  std_out std_err : Bytes → LogOutput
  other_output : LogOutput

-- The first item of `wait_container`: an answer, the error that carries the exit code, or neither.
pub data WaitReply : Type 0 where
  status_code wait_error : ℤ → WaitReply
  no_reply : WaitReply

-- The four octets, and the eight segments.
pub data IpAddr : Type 0 where
  v4 : ℕ → ℕ → ℕ → ℕ → IpAddr
  v6 : ℕ → ℕ → ℕ → ℕ → ℕ → ℕ → ℕ → ℕ → IpAddr

-- A successful `send`; the body is the stream of its chunks.
pub record HttpResponse : Type 0 where
  pub status : ℕ
  pub content_type : Option Text
  pub body : List (Result Text Bytes)

-- The outcome of `acquire_owned` under the queue timeout.
pub data Permit : Type 0 where
  granted closed timed_out : Permit

pub record Env : Type 0 where
  pub create_dir_all : History → FilePath → Result IoError (Unit {0})
  pub remove_dir_all : History → FilePath → Result IoError (Unit {0})
  pub remove_file : History → FilePath → Result IoError (Unit {0})
  pub create_file : History → FilePath → Result IoError (Unit {0})
  pub flush : History → FilePath → Result IoError (Unit {0})
  pub sync_all : History → FilePath → Result IoError (Unit {0})
  pub rename : History → FilePath → FilePath → Result IoError (Unit {0})
  pub write_all : History → FilePath → Bytes → Result IoError (Unit {0})
  pub metadata : History → FilePath → Result IoError Metadata
  pub read_dir : History → FilePath → Result IoError (List (Result IoError DirEntry))
  pub open_file : History → FilePath → Result IoError (Unit {0})
  -- What `read` puts into a buffer, from its offset in the file and the room in the buffer.
  pub read : History → FilePath → ℕ → ℕ → Result IoError Bytes
  pub read_file : History → FilePath → Result IoError Bytes
  pub set_permissions : History → FilePath → ℕ → Result IoError (Unit {0})
  pub chown : History → FilePath → ℕ → ℕ → Result IoError (Unit {0})
  pub archive_entries : History → FilePath → Result IoError (List (Result IoError ArchiveEntry))
  pub unpack_in : History → FilePath → FilePath → Result IoError (Unit {0})
  pub pack : History → FilePath → Text → FilePath → Result IoError (Unit {0})
  pub create_container : History → Text → ContainerSpec → Result Text Text
  pub attach_container : History → Text → Result Text (List (Result Text LogOutput))
  pub start_container : History → Text → Result Text (Unit {0})
  pub wait_container : History → Text → WaitReply
  pub ping : History → Result Text (Unit {0})
  pub connect_unix : Text → ℕ → Result Text (Unit {0})
  -- The `version` and the `api_version` of Docker's answer.
  pub version : History → Result Text (Option Text × Option Text)
  pub put : History → Text → Text → Bytes → Result Text (Unit {0})
  pub create_multipart : History → Text → Text → Result Text (Option Text)
  pub upload_part : History → Text → ℕ → Bytes → Result Text (Option Text)
  pub complete_multipart : History → Text → Text → List CompletedPart → Result Text (Unit {0})
  pub presign_config : ℕ → Result Text (Unit {0})
  pub presign : History → Text → ℕ → Result Text Text
  -- Where a deadline passes first, after how many more requests.
  pub deadline : History → ℕ → Option ℕ
  pub parse_url : Text → Result Text Url
  -- `str::parse::<IpAddr>`
  pub parse_ip : Text → Option IpAddr
  pub build_client : ℕ → Result Text (Unit {0})
  pub lookup_host : History → Text → ℕ → Result Text (List IpAddr)
  pub send : History → Url → List (Text × Text) → ℕ → Result Text HttpResponse
  pub acquire : History → Permit
  pub available_permits : History → ℕ
  -- tonic's `From<std::io::Error> for Status`
  pub io_status : IoError → Status
  -- Nanoseconds since the epoch.
  pub now : History → ℕ
  pub sha256_hex : Bytes → Text
