-- ===== src/Mux/Files.antt =====
-- mux_v4.go: what the operations on files are made of: the worker of the request (`x.FS`), its calls of
-- the file system, its cache, and the reply. A handler or a body is built from its first step and what
-- follows it.
use nfs4go.Common.{
  ℕ, Bool, true, false, ◌||◌, List, Option, none, some, get_elem?, if◌then◌else◌, Result, Error, ok,
  err, panic, stuck, ◌>>=◌, not_exist, exist, permission, invalid, eisdir, enotdir, enotsup, eof,
}
use nfs4go.Common.Keyed
use nfs4go.Clients.Table.{Clients}
use nfs4go.Vfs.{Vfs}
use nfs4go.Worker.Cache.{Entry, SavedEntry}
use nfs4go.Worker.Cache
use nfs4go.Worker.State.{Worker}
use nfs4go.Worker.Lifecycle.{discard, close}
use nfs4go.Server.Workers.{Server, get_worker, put_worker}
use nfs4go.Xdr.Layout.{Layout, Val, Fields, Vals, end}
use nfs4go.Msg.Status.{err2status, nofilehandle}
use nfs4go.Mux.State.{FileHandle, Request, State, Handler, read_args, look_at_clock}
use nfs4go.Mux.Output.{answer, plain}

-- The state that the operations on files share, in the place of `F`.
pub record Files (v : Vfs) : Type 0 where
  pub server : Server v
  pub disk : v.Disk

-- The worker while an operation has it, and whether its clean-up was started meanwhile.
pub record Held (v : Vfs) : Type 0 where
  pub worker : Worker v
  pub started : Bool

-- What an operation does between `x.FS` and the deferred `fs.Close()`.
abbrev pub Body : Vfs → Type 0
Body v = Held v → State (Files v) → Result (ℕ × Held v × State (Files v))

-- `NonFatalErrors`.
unfoldable pub is_non_fatal : Error → Bool
is_non_fatal not_exist = true
is_non_fatal exist = true
is_non_fatal permission = true
is_non_fatal invalid = true
is_non_fatal eisdir = true
is_non_fatal enotdir = true
is_non_fatal enotsup = true
is_non_fatal eof = true
is_non_fatal _ = false

module _ {F : Type 0} where
  -- `xdr.NewDecoder(in).Decode(&args)`, with its early return.
  unfoldable pub reads : (l : Layout) → (Val l → Handler F) → Handler F
  reads l next st = do (args, st') ← read_args l st; next args st'

  unfoldable pub need : ℕ → ℕ → Option FileHandle → (FileHandle → Handler F) → Handler F
  need op status none next st = plain op status st
  need op status (some fh) next st = next fh st

  -- `x.CurrentHandle == nil` is answered with NFS4ERR_NOFILEHANDLE.
  unfoldable pub need_current : ℕ → (FileHandle → Handler F) → Handler F
  unfolding need
  need_current op next st = need op nofilehandle st.current_handle next st

module _ {v : Vfs} where
  abbrev pub with_disk : State (Files v) → v.Disk → State (Files v)
  with_disk st disk = record st {
    world = record st.world { files = record st.world.files { disk = disk } };
  }

  abbrev pub with_clients : State (Files v) → Clients → State (Files v)
  with_clients st cs = record st { world = record st.world { clients = cs } }

  abbrev pub with_cache : Held v → Cache.Cache v.Info → Held v
  with_cache h c = record h { worker = record h.worker { cache = c } }

  unfoldable pub reply : ℕ → ℕ → (fs : Fields) → Vals fs → Body v
  reply op status fs vs h st = do (status', st') ← answer op status fs vs st; ok (status', h, st')

  -- A reply with no data.
  abbrev pub plain_reply : ℕ → ℕ → Body v
  plain_reply op status = reply op status end tt

  unfoldable pub discard_held : Held v → Held v
  discard_held h =
      let (w, start) = discard h.worker in record { worker = w; started = h.started || start }

  -- `fs.Discard()`.
  unfoldable pub discards : Body v → Body v
  unfolding discard_held
  discards next h st = next (discard_held h) st

  -- `DiscardOnServerFault`, and the reply with the status of the error.
  unfoldable pub fail : ℕ → Error → Body v
  unfolding is_non_fatal discards
  fail op e =
      if is_non_fatal e
      then plain_reply op (err2status e)
      else discards (plain_reply op (err2status e))

  unfoldable pub asked : {A : Type 0} → Result A × v.Disk → (A → Body v) → (Error → Body v) → Body v
  asked (ok a, disk) good bad h st = good a h (with_disk st disk)
  asked (err e, disk) good bad h st = bad e h (with_disk st disk)
  asked (panic, disk) good bad h st = panic
  asked (stuck, disk) good bad h st = stuck

  -- A call of the file system, what follows it, and what follows an error.
  unfoldable pub ask :
      {A : Type 0} → (v.Fs → v.Disk → Result A × v.Disk) → (A → Body v) → (Error → Body v) → Body v
  unfolding asked
  ask call good bad h st = asked (call h.worker.fs st.world.files.disk) good bad h st

  unfoldable pub cached_now : Option (Entry v.Info) → (Entry v.Info → Body v) → Body v → Body v
  cached_now none found missing = missing
  cached_now (some entry) found missing = found entry

  unfoldable pub cached_at :
      List ℕ → Option (SavedEntry v.Info) → (Entry v.Info → Body v) → Body v → Body v
  unfolding cached_now
  cached_at handle none found missing h st = missing h st
  cached_at handle (some saved) found missing h st = do
    (now, world) ← look_at_clock st.world
    cached_now (Cache.get now handle h.worker.cache) found missing h (record st { world = world })

  -- `fs.Cache.Get`; the clock is looked at only if there is an entry.
  unfoldable pub cached : List ℕ → (Entry v.Info → Body v) → Body v → Body v
  unfolding cached_at
  cached handle found missing h st =
      cached_at handle (Keyed.lookup handle h.worker.cache.entries) found missing h st

  -- `fs.Cache.Put`.
  unfoldable pub remembers : List ℕ → Entry v.Info → Body v → Body v
  remembers handle entry next h st = do
    (now, world) ← look_at_clock st.world
    next (with_cache h (Cache.put now handle entry h.worker.cache)) (record st { world = world })

  -- `fs.Cache.Invalidate`.
  unfoldable pub forgets : List ℕ → Body v → Body v
  forgets handle next h st = next (with_cache h (Cache.invalidate handle h.worker.cache)) st

  -- `x.CurrentHandle = &FileHandle{...}`.
  unfoldable pub moves : FileHandle → Body v → Body v
  moves fh next h st = next h (record st { current_handle = some fh })

  -- `x.CurrentHandle.…` with no test: a nil pointer is a panic.
  unfoldable pub derefs : Option FileHandle → (FileHandle → Body v) → Body v
  derefs none next h st = panic
  derefs (some fh) next h st = next fh h st

  unfoldable pub at_current : (FileHandle → Body v) → Body v
  unfolding derefs
  at_current next h st = derefs st.current_handle next h st

  -- What `Lstat` tells of a handle, from the cache if it is there.
  unfoldable pub stat_cached : ℕ → FileHandle → (v.Info → Body v) → Body v
  unfolding cached ask fail remembers
  stat_cached op fh next =
      cached fh.handle (λ entry. next entry.info)
        (ask (λ fs. v.lstat fs fh.path)
          (λ info. remembers fh.handle (record { path = fh.path; info = info }) (next info))
          (fail op))

  -- The deferred `fs.Close()`.
  unfoldable pub shut : ℕ → Held v → State (Files v) → State (Files v)
  shut p h st =
      let (w, start) = close h.worker in
      let files = st.world.files in
      record st {
        world = record st.world {
          files = record files { server = put_worker p (w, h.started || start) files.server };
        };
      }

  unfoldable pub with_worker : ℕ → Option (Worker v) → Body v → Handler (Files v)
  unfolding shut
  with_worker p none body st = stuck
  with_worker p (some w) body st = do
    (status, h, st') ← body (record { worker = w; started = false }) st
    ok (status, shut p h st')

  -- `fs := x.FS(x.Creds, x.SessionID)`, the body, and the deferred call. `client_key` belongs to the
  -- connection.
  unfoldable pub with_fs : List ℕ → Request → Body v → Handler (Files v)
  unfolding get_worker with_worker
  with_fs client_key req body st = do
    (now, world) ← look_at_clock st.world
    (p, draws', disk', server') ←
        get_worker client_key req.creds st.session_id now world.draws world.files.disk
          world.files.server
    with_worker p (get_elem? server'.heap p) body (record st {
      world = record world { draws = draws'; files = record { server = server'; disk = disk' } };
    })
