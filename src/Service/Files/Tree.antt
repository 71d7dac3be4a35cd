-- ===== src/Service/Files/Tree.antt =====
-- A finite tree of directories, and what a listing of it holds.
use scriptorium.Error.{Result, IoError, ok}
use scriptorium.World.Calls.{Env, Metadata, History, DirEntry}
use scriptorium.Base.{List, ℕ, ◌∷◌, ◌≡◌, false, suc, [], ◌++◌, ◌+◌, true}
use scriptorium.FilePath.{FilePath}
use scriptorium.Service.Files.{FileInfo, file_info}

-- The contents of a directory: its entries with their metadata, and what is in each subdirectory.
pub data Tree : Type 0 where
  empty : Tree
  file : FilePath → Metadata → Tree → Tree
  dir : FilePath → Metadata → Tree → Tree → Tree

-- What `read_dir` gives of a directory.
abbrev pub entries_of : Tree → List (Result IoError DirEntry)
entries_of empty = []
entries_of (file path meta rest) = ok (record { path = path; meta = ok meta }) ∷ entries_of rest
entries_of (dir path meta inside rest) =
    ok (record { path = path; meta = ok meta }) ∷ entries_of rest

-- What the tree says, the file system answers, whatever it was asked before.
abbrev pub IsListed : Env → Tree → Type 0
IsListed env empty = Unit
IsListed env (file path meta rest) = (meta.is_dir ≡ false) × IsListed env rest
IsListed env (dir path meta inside rest) =
    (meta.is_dir ≡ true)
    × ((h : History) → env.read_dir h path ≡ ok (entries_of inside))
    × IsListed env inside
    × IsListed env rest

-- The number of directories below.
abbrev pub dir_count : Tree → ℕ
dir_count empty = 0
dir_count (file path meta rest) = dir_count rest
dir_count (dir path meta inside rest) = suc (dir_count inside) + dir_count rest

-- The entries of the directory itself.
abbrev pub here : FilePath → Tree → List FileInfo
here root empty = []
here root (file path meta rest) = file_info root path meta ∷ here root rest
here root (dir path meta inside rest) = file_info root path meta ∷ here root rest

-- All entries of the tree, each directory before what is in it.
abbrev pub everything : FilePath → Tree → List FileInfo
everything root empty = []
everything root (file path meta rest) = file_info root path meta ∷ everything root rest
everything root (dir path meta inside rest) =
    file_info root path meta ∷ (everything root inside ++ everything root rest)
