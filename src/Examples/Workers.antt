-- ===== src/Examples/Workers.antt =====
-- worker/, server.go and clock/ at concrete inputs, over a file system that answers every call.
use nfs4go.Common.{ℕ, ◌≡◌, refl, true, false, List, [], ◌∷◌, none, ok, arith}
use nfs4go.Common.Int.{pos, ◌+ℤ◌}
use nfs4go.Common.Assoc
use nfs4go.Common.Keyed
use nfs4go.Auth.{Creds}
use nfs4go.Clients.Client.{Client, fresh_key}
use nfs4go.Clients.Table.{Clients}
use nfs4go.Vfs.{Vfs}
use nfs4go.Worker.Cache.{Entry, get, new_cache}
use nfs4go.Worker.State.{File, Worker, whole}
use nfs4go.Worker.Files.{add_file, remove_file}
use nfs4go.Worker.Lifecycle.{new, discard}
use nfs4go.Worker.Life.{
  Life, born, started, discards, here, next, IsSound, Reach-IsSound, Drains, IsFinished,
  discarded_finishes,
}
use nfs4go.Worker.Balance.{FileCall, adds, removes, busy_run}
use nfs4go.Worker.Balance
use nfs4go.Worker.Counts.{Counts}
use nfs4go.Worker.Cached.{CacheCall, puts, invalidates, collects, latest, unexpired, get-run}
use nfs4go.Worker.Cached
use nfs4go.Worker.Opened.{Added, Removed, get_file-add_file, get_file-remove_file}
use nfs4go.Worker.Listers.{add_lister}
use nfs4go.Worker.Listed.{Listed, add_lister_ends}
use nfs4go.Server.Workers.{Server, session_key, get_worker, find_worker}
use nfs4go.Server.Serving.{Served, get_worker_lem}

-- Handles are paths, and every file has the mode 0o644.
abbrev pub toy : Vfs
toy = record {
  Disk = ℕ;
  Fs = ℕ;
  File = ℕ;
  Listing = ℕ;
  Info = ℕ;
  join = λ dir name. name;
  base = λ path. path;
  mode = λ info. 420;
  mod_time = λ info. info;
  is_dir = λ info. false;
  size = λ info. pos info;
  num_links = λ info. 1;
  uid = λ info. 1000;
  gid = λ info. 1000;
  extended = λ info. ok [];
  get_attr = λ attrs name. none;
  new_fs = λ creds disk. (0, disk);
  close_fs = λ fs disk. (ok tt, disk);
  handle = λ fs path disk. (ok path, disk);
  path = λ fs handle disk. (ok handle, disk);
  lstat = λ fs path disk. (ok disk, disk);
  mkdir = λ fs path mode disk. (ok tt, disk);
  symlink = λ fs target path disk. (ok tt, disk);
  rename = λ fs old new disk. (ok tt, disk);
  remove = λ fs path disk. (ok tt, disk);
  rmdir = λ fs path disk. (ok tt, disk);
  link = λ fs old new disk. (ok tt, disk);
  readlink = λ fs path disk. (ok path, disk);
  chmod = λ fs path mode disk. (ok tt, disk);
  chown = λ fs path uid gid disk. (ok tt, disk);
  truncate = λ fs path size disk. (ok tt, disk);
  chtimes = λ fs path a m disk. (ok tt, disk);
  set_extended_attr = λ fs path name value disk. (ok tt, disk);
  unset_extended_attr = λ fs path name disk. (ok tt, disk);
  read_at = λ file count offset disk. (([], ok tt), disk);
  write_at = λ file bytes offset disk. (ok 0, disk);
  open_file = λ fs path flag mode disk. (ok 1, disk);
  file_write = λ fs path flag disk. (ok 1, disk);
  file_read = λ fs path disk. (ok 1, disk);
  close_file = λ file disk. (ok tt, disk);
  name = λ info. [];
  list = λ fs path disk. (ok 0, disk);
  list_at = λ listing count offset disk. (([], ok tt), disk);
  close_listing = λ listing disk. (ok tt, disk);
}

abbrev pub user : Creds
user = record {
  expiration_value = 0;
  hostname = [];
  uid = 1000;
  gid = 1000;
  additional_groups = [];
}

abbrev worker : Worker toy
worker = record {
  fs = 0;
  cache = record { timeout = 30000000000; entries = [] };
  creds = user;
  session_id = 7;
  listers = [];
  files = [];
  closed_files = [];
  in_use = pos 1;
  discarded = false;
  last_use = 5;
}

new_worker : new {v = toy} user 5 (7 ∷ []) 0 ≡ ok (worker, [], 0)
unfolding new
new_worker = refl

abbrev life : Life toy
life = born worker 0 []

abbrev discarded_life : Life toy
discarded_life = started (discard life.worker) life

Reach-IsSound_example : IsSound discarded_life
Reach-IsSound_example =
    Reach-IsSound user 5 (7 ∷ []) [] 0 0 worker [] discarded_life new_worker
      (next here (discards life))

discarded_finishes_example : (m : Life toy) × Drains discarded_life m × IsFinished m
unfolding started discard born
discarded_finishes_example =
    discarded_finishes user 5 (7 ∷ []) [] 0 0 worker [] discarded_life new_worker
      (next here (discards life)) refl

abbrev client : Client
client = record {
  name = b'c' ∷ [];
  verifier = 1;
  creds = user;
  client_id = 9;
  last_seen = 0;
  confirmed = true;
  confirm_value = 0;
  seq_id = 1;
  busy = pos 2;
  sessions = [];
}

abbrev table : Clients
table = (9, client) ∷ []

abbrev file : File toy
file = record { file = whole 3; handle = b'/' ∷ []; client = 9; client_seq_id = 4 }

abbrev file_calls : List (FileCall toy)
file_calls = adds file (12 ∷ []) ∷ removes 12 ∷ []

busy_run_example :
    Counts {v = toy} 9
      (pos 2)
      (Balance.run file_calls (worker, table)).0.files
      (Balance.run file_calls (worker, table)).1
unfolding Assoc.lookup ◌+ℤ◌
busy_run_example = busy_run 9 (pos 2) file_calls worker table tt (client, refl, refl)

abbrev entry : Entry ℕ
entry = record { path = b'/' ∷ []; info = 1 }

abbrev cache_calls : List (CacheCall ℕ)
cache_calls = puts 10 (b'h' ∷ []) entry ∷ collects 20 ∷ []

get-run_example :
    get 30 (b'h' ∷ []) (Cached.run cache_calls (new_cache 15))
    ≡ unexpired 30 15 (latest (b'h' ∷ []) none cache_calls)
get-run_example = get-run 15 30 (b'h' ∷ []) cache_calls (tt, (omega arith, tt))

abbrev opened : Worker toy
opened = record worker { files = (12, file) ∷ [] }

get_file-add_file_example : Added 12 file worker opened
unfolding add_file Assoc.lookup Assoc.insert fresh_key
get_file-add_file_example = get_file-add_file file (12 ∷ []) [] worker opened table _ 12 refl

get_file-remove_file_example :
    Removed 12 opened (remove_file 12 opened table).1 (remove_file 12 opened table).0
get_file-remove_file_example = get_file-remove_file 12 opened table

add_lister_ends_example :
    (index : ℕ) × (rest : List ℕ) × (w' : Worker toy) × (add_lister 8 50 (6 ∷ []) worker
      ≡ ok (index, rest, w'))
    × Listed index 8 50 worker w'
unfolding Assoc.lookup
add_lister_ends_example = add_lister_ends 8 50 (6 ∷ []) worker refl

abbrev browsing : Worker toy
browsing = record worker { listers = (3, record { lister = 1; last_seen = 0 }) ∷ [] }

abbrev server : Server toy
server = record { heap = []; workers = []; cleanups = []; waiting = 0 }

get_worker_lem_example :
    Served
      (session_key (b'k' ∷ []) [])
      user
      server
      (get_worker (b'k' ∷ []) user [] 5 (7 ∷ []) 0 server)
unfolding find_worker Keyed.lookup Assoc.lookup
get_worker_lem_example = get_worker_lem (b'k' ∷ []) user [] 5 7 [] 0 server (λ key uid p e. cc)
