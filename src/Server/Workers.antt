-- ===== src/Server/Workers.antt =====
-- server.go: `GetWorker`. A worker is known by its place in `heap`, which stands for the pointer.
use nfs4go.Common.{
  ℕ, ◌+◌, Bool, false, not, List, [], ◌∷◌, ◌++◌, Option, none, some, length, get_elem?, set,
  replicate, list_eq, if◌then◌else◌, Result, ok, stuck, ◌>>=◌,
}
use nfs4go.Common.Assoc
use nfs4go.Common.Keyed
use nfs4go.Auth.{Creds, creds_equal}
use nfs4go.Vfs.{Vfs}
use nfs4go.Worker.State.{Worker}
use nfs4go.Worker.Lifecycle.{new, use_worker, discard}

-- `cleanups` lists the workers whose `cleanup` was started, and `waiting` counts the `Add(1)` of the wait
-- group.
pub record Server (v : Vfs) : Type 0 where
  pub heap : List (Worker v)
  pub workers : List (List ℕ × List (ℕ × ℕ))
  pub cleanups : List ℕ
  pub waiting : ℕ

-- Before version 4.1 there is no session: `client_key` is what `md5` makes of the address.
unfoldable pub session_key : List ℕ → List ℕ → List ℕ
session_key client_key session_id =
    if list_eq session_id (replicate 16 0) then client_key else session_id

-- `s.workers[sessionID]`, where a missing map reads as an empty one.
abbrev pub users_or_none : Option (List (ℕ × ℕ)) → List (ℕ × ℕ)
users_or_none none = []
users_or_none (some users) = users

abbrev pub users_of : List ℕ → List (List ℕ × List (ℕ × ℕ)) → List (ℕ × ℕ)
users_of key workers = users_or_none (Keyed.lookup key workers)

module _ {v : Vfs} where
  unfoldable pub find_worker : List ℕ → ℕ → Server v → Option ℕ
  find_worker key uid s = Assoc.lookup uid (users_of key s.workers)

  unfoldable pub put_worker : ℕ → Worker v × Bool → Server v → Server v
  put_worker p (w, start) s = record s {
    heap = set s.heap p w;
    cleanups = if start then p ∷ s.cleanups else s.cleanups;
  }

  unfoldable pub new_worker :
      List ℕ → Creds → ℕ → List ℕ → v.Disk → Server v → Result (ℕ × List ℕ × v.Disk × Server v)
  new_worker key creds now draws disk s = do
    (w, draws', disk') ← new creds now draws disk
    ok (
      length s.heap,
      draws',
      disk',
      record s {
        heap = s.heap ++ w ∷ [];
        workers =
            Keyed.insert key (Assoc.insert creds.uid (length s.heap) (users_of key s.workers))
              s.workers;
        waiting = s.waiting + 1;
      },
    )

  unfoldable pub reuse_worker :
      List ℕ
      → Creds
      → ℕ
      → List ℕ
      → v.Disk
      → Server v
      → ℕ
      → Option (Worker v)
      → Result (ℕ × List ℕ × v.Disk × Server v)
  unfolding put_worker new_worker
  reuse_worker key creds now draws disk s p none = stuck
  reuse_worker key creds now draws disk s p (some w) =
      if not (creds_equal w.creds creds)
      then new_worker key creds now draws disk (put_worker p (discard w) s)
      else elim (use_worker now w) [
        | some w' ↦ ok (p, draws, disk, put_worker p (w', false) s)
        | none ↦ new_worker key creds now draws disk s
      ]

  unfoldable pub found_worker :
      List ℕ
      → Creds
      → ℕ
      → List ℕ
      → v.Disk
      → Server v
      → Option ℕ
      → Result (ℕ × List ℕ × v.Disk × Server v)
  unfolding new_worker reuse_worker
  found_worker key creds now draws disk s none = new_worker key creds now draws disk s
  found_worker key creds now draws disk s (some p) =
      reuse_worker key creds now draws disk s p (get_elem? s.heap p)

  unfoldable pub get_worker :
      List ℕ
      → Creds
      → List ℕ
      → ℕ
      → List ℕ
      → v.Disk
      → Server v
      → Result (ℕ × List ℕ × v.Disk × Server v)
  unfolding session_key find_worker found_worker
  get_worker client_key creds session_id now draws disk s =
      let key = session_key client_key session_id in
      found_worker key creds now draws disk s (find_worker key creds.uid s)
