-- ===== src/Worker/State.antt =====
-- worker/worker.go, worker/file.go and worker/lister.go: the state of a worker.
use nfs4go.Common.{ℕ, Bool, List}
use nfs4go.Common.Int.{ℤ}
use nfs4go.Auth.{Creds}
use nfs4go.Vfs.{Vfs}
use nfs4go.Worker.Cache.{Cache}

-- An open file, as it is or as `NopWriterAt` or `NopReaderAt` of nop.go wraps it.
pub data Opened (v : Vfs) : Type 0 where
  whole : v.File → Opened v
  nop_writer_at : v.File → Opened v
  nop_reader_at : v.File → Opened v

abbrev pub file_of : {v : Vfs} → Opened v → v.File
file_of (whole f) = f
file_of (nop_writer_at f) = f
file_of (nop_reader_at f) = f

-- `client` is the id of the client that the pointer leads to.
pub record File (v : Vfs) : Type 0 where
  pub file : Opened v
  pub handle : List ℕ
  pub client : ℕ
  pub client_seq_id : ℕ

pub record Lister (v : Vfs) : Type 0 where
  pub lister : v.Listing
  pub last_seen : ℕ

-- `closed_files` is a set; the order of `files` and `listers` is the order in which `range` visits them.
pub record Worker (v : Vfs) : Type 0 where
  pub fs : v.Fs
  pub cache : Cache v.Info
  pub creds : Creds
  pub session_id : ℕ
  pub listers : List (ℕ × Lister v)
  pub files : List (ℕ × File v)
  pub closed_files : List ℕ
  pub in_use : ℤ
  pub discarded : Bool
  pub last_use : ℕ
