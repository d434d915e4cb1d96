-- ===== src/Vfs.antt =====
-- What the server asks of a file system (package vfs). These are calls of code that is not modelled:
-- each takes the state of all file systems and gives its result and the new state. Paths, names and
-- handles are byte strings.
use nfs4go.Common.{ℕ, Bool, List, Option, Result}
use nfs4go.Common.Int.{ℤ}
use nfs4go.Auth.{Creds}

-- `Fs` is a file system as a worker holds it, `File` an open file, `Listing` an open directory and
-- `Info` what `Lstat` tells.
pub record Vfs : Type 1 where
  pub Disk : Type 0
  pub Fs : Type 0
  pub File : Type 0
  pub Listing : Type 0
  pub Info : Type 0
  -- `vfs.Join` and `vfs.Base`.
  pub join : List ℕ → List ℕ → List ℕ
  pub base : List ℕ → List ℕ
  pub mode : Info → ℕ
  pub mod_time : Info → ℕ
  pub is_dir : Info → Bool
  pub size : Info → ℤ
  pub num_links : Info → ℕ
  pub uid : Info → ℕ
  pub gid : Info → ℕ
  pub extended : Info → Result (List (List ℕ × List ℕ))
  -- `Attributes.Get`.
  pub get_attr : List (List ℕ × List ℕ) → List ℕ → Option (List ℕ)
  -- `NewFS`.
  pub new_fs : Creds → Disk → Fs × Disk
  pub close_fs : Fs → Disk → Result (Unit {0}) × Disk
  pub handle : Fs → List ℕ → Disk → Result (List ℕ) × Disk
  pub path : Fs → List ℕ → Disk → Result (List ℕ) × Disk
  pub lstat : Fs → List ℕ → Disk → Result Info × Disk
  pub mkdir : Fs → List ℕ → ℕ → Disk → Result (Unit {0}) × Disk
  pub symlink : Fs → List ℕ → List ℕ → Disk → Result (Unit {0}) × Disk
  pub rename : Fs → List ℕ → List ℕ → Disk → Result (Unit {0}) × Disk
  pub remove : Fs → List ℕ → Disk → Result (Unit {0}) × Disk
  pub rmdir : Fs → List ℕ → Disk → Result (Unit {0}) × Disk
  pub link : Fs → List ℕ → List ℕ → Disk → Result (Unit {0}) × Disk
  pub readlink : Fs → List ℕ → Disk → Result (List ℕ) × Disk
  pub chmod : Fs → List ℕ → ℕ → Disk → Result (Unit {0}) × Disk
  pub chown : Fs → List ℕ → ℕ → ℕ → Disk → Result (Unit {0}) × Disk
  pub truncate : Fs → List ℕ → ℤ → Disk → Result (Unit {0}) × Disk
  pub chtimes : Fs → List ℕ → ℤ → ℤ → Disk → Result (Unit {0}) × Disk
  pub set_extended_attr : Fs → List ℕ → List ℕ → List ℕ → Disk → Result (Unit {0}) × Disk
  pub unset_extended_attr : Fs → List ℕ → List ℕ → Disk → Result (Unit {0}) × Disk
  -- `ReadAt` with the length of the buffer and the offset: the bytes read, and the error with them.
  pub read_at : File → ℕ → ℤ → Disk → (List ℕ × Result (Unit {0})) × Disk
  pub write_at : File → List ℕ → ℤ → Disk → Result ℕ × Disk
  -- `OpenFile` with the flags and the mode, `FileWrite` with the flags, and `FileRead`.
  pub open_file : Fs → List ℕ → ℕ → ℕ → Disk → Result File × Disk
  pub file_write : Fs → List ℕ → ℕ → Disk → Result File × Disk
  pub file_read : Fs → List ℕ → Disk → Result File × Disk
  pub close_file : File → Disk → Result (Unit {0}) × Disk
  pub name : Info → List ℕ
  pub list : Fs → List ℕ → Disk → Result Listing × Disk
  -- `ListAt` with the length of the buffer and the offset: the entries, and the error with them.
  pub list_at : Listing → ℕ → ℤ → Disk → (List Info × Result (Unit {0})) × Disk
  pub close_listing : Listing → Disk → Result (Unit {0}) × Disk
