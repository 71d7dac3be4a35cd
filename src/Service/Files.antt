-- ===== src/Service/Files.antt =====
-- src/service/files.rs: `collect_files`.
pub mod Tree
pub mod Walk
use scriptorium.World.Fs.{read_dir}
use scriptorium.World.{of_result, Io, pure, fail, ◌>>=◌, lift_io, of_result}
use scriptorium.Runtime.{path_text}
use scriptorium.World.Calls.{Env, Metadata, DirEntry}
use scriptorium.FilePath.{FilePath, strip_prefix}
use scriptorium.Text.{Text}
use Prim.Native.Nat.{bit_and}
use scriptorium.Base.{
  zero, suc, ◌∷◌, ◌++◌, Option, ℕ, Bool, List, none, some, if◌then◌else◌, ◌&&◌, suc, [],
}
use scriptorium.Error.{ok, err, other, out_of_fuel, Result, io, IoError, Error}

pub record FileInfo : Type 0 where
  pub path : Text
  pub size_bytes : ℕ
  pub mode : ℕ
  pub is_dir : Bool
  pub modified_unix : ℕ

abbrev pub unix_or_zero : Option ℕ → ℕ
unix_or_zero none = 0
unix_or_zero (some seconds) = seconds

-- The path below the workspace root, or the whole path where it is not below it.
abbrev pub relative_to : FilePath → FilePath → FilePath
relative_to root path = elim (strip_prefix path root) [ none ↦ path | some rel ↦ rel ]

unfoldable pub file_info : FilePath → FilePath → Metadata → FileInfo
file_info root path meta = record {
  path = path_text (relative_to root path);
  size_bytes = meta.len;
  mode = bit_and meta.mode 0o7777;
  is_dir = meta.is_dir;
  modified_unix = unix_or_zero meta.modified;
}

-- The inner loop over the entries of a directory: the stack, its top first, and what is listed.
unfoldable pub list_entries :
    FilePath
    → Bool
    → List (Result IoError DirEntry)
    → List FilePath
    → List FileInfo
    → Result Error (List FilePath × List FileInfo)
list_entries root recursive [] stack out = ok (stack, out)
list_entries root recursive (err e ∷ rest) stack out = err (io e)
list_entries root recursive (ok entry ∷ rest) stack out = elim entry.meta [
  | err e ↦ err (io e)
  | ok meta ↦
      list_entries root recursive rest
        (if meta.is_dir && recursive then entry.path ∷ stack else stack)
        (out ++ (file_info root entry.path meta ∷ []))
]

-- The outer loop, with fuel for each directory that is popped.
unfoldable pub collect_files :
    Env → ℕ → FilePath → Bool → List FilePath → List FileInfo → Io Error (List FileInfo)
collect_files env fuel root recursive [] out = pure out
collect_files env zero root recursive (dir ∷ stack) out = fail (other out_of_fuel)
collect_files env (suc fuel) root recursive (dir ∷ stack) out = do
  rd ← lift_io (read_dir env dir)
  (stack', out') ← of_result (list_entries root recursive rd stack out)
  collect_files env fuel root recursive stack' out'
