-- ===== src/Worker/Lifecycle.antt =====
-- worker/worker.go: a worker from `New` to `cleanup`. `go w.cleanup()` is a flag in the result: whether
-- the call starts the goroutine.
use nfs4go.Common.{
  ℕ, ◌+◌, ◌*◌, Bool, true, false, not, ◌&&◌, List, [], ◌∷◌, Option, none, some, leb, if◌then◌else◌,
  Result, ok, ◌>>=◌,
}
use nfs4go.Common.Int.{pos, ◌+ℤ◌, ◌-ℤ◌, is_pos, is_zero}
use nfs4go.Auth.{Creds}
use nfs4go.Clients.Client.{done, draw}
use nfs4go.Clients.Table.{Clients}
use nfs4go.Clients.History.{on_client}
use nfs4go.Vfs.{Vfs}
use nfs4go.Worker.Cache.{second, new_cache, default_timeout}
use nfs4go.Worker.State.{File, Lister, Worker, file_of}

abbrev pub idle_timeout : ℕ
idle_timeout = 300 * second

module _ {v : Vfs} where
  unfoldable pub new : Creds → ℕ → List ℕ → v.Disk → Result (Worker v × List ℕ × v.Disk)
  unfolding new_cache draw
  new creds now draws disk = do
    let made = v.new_fs creds disk
    (session, draws') ← draw draws
    ok (
      record {
        fs = made.0;
        cache = new_cache default_timeout;
        creds = creds;
        session_id = session;
        listers = [];
        files = [];
        closed_files = [];
        in_use = pos 1;
        discarded = false;
        last_use = now;
      },
      draws',
      made.1,
    )

  -- `none` is `ErrWorkerDiscarded`.
  unfoldable pub use_worker : ℕ → Worker v → Option (Worker v)
  use_worker now w =
      if w.discarded then none else some (record w { in_use = w.in_use +ℤ pos 1; last_use = now })

  unfoldable pub discard : Worker v → Worker v × Bool
  discard w =
      if w.discarded then (w, false) else (record w { discarded = true }, not (is_pos w.in_use))

  unfoldable pub close : Worker v → Worker v × Bool
  close w = let n = w.in_use -ℤ pos 1 in (record w { in_use = n }, w.discarded && is_zero n)

  -- One round of `autoDiscard`, with `must_discard` where the context is done.
  unfoldable pub auto_discard : Bool → ℕ → Worker v → Worker v × Bool
  auto_discard must_discard now w =
      if w.discarded
      then (w, false)
      else (if leb now (w.last_use + idle_timeout) && not must_discard
          then (w, false)
          else (record w { discarded = true }, is_zero w.in_use))

  unfoldable pub close_listers : List (ℕ × Lister v) → v.Disk → v.Disk
  close_listers [] disk = disk
  close_listers ((index, l) ∷ rest) disk = close_listers rest (v.close_listing l.lister disk).1

  unfoldable pub close_files : List (ℕ × File v) → v.Disk → Clients → v.Disk × Clients
  unfolding on_client done
  close_files [] disk cs = (disk, cs)
  close_files ((index, f) ∷ rest) disk cs =
      close_files rest (v.close_file (file_of f.file) disk).1 (on_client done f.client cs)

  -- Errors are only logged.
  unfoldable pub cleanup : Worker v → v.Disk → Clients → Worker v × v.Disk × Clients
  unfolding close_listers close_files
  cleanup w disk cs =
      let (disk', cs') = close_files w.files (close_listers w.listers disk) cs in
      (record w { listers = []; files = []; closed_files = [] }, (v.close_fs w.fs disk').1, cs')
