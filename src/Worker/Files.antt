-- ===== src/Worker/Files.antt =====
-- worker/file.go: the open files of a worker. A file counts at its client.
use nfs4go.Common.{
  ℕ, Bool, false, ◌&&◌, ◌||◌, List, [], ◌∷◌, Option, none, some, ◌==◌, if◌then◌else◌, Result, ok,
  ◌>>=◌,
}
use nfs4go.Common.Assoc.{lookup, insert, erase}
use nfs4go.Common.Int.{pos}
use nfs4go.Clients.Client.{fresh_key, add_busy, done}
use nfs4go.Clients.Table.{Clients}
use nfs4go.Clients.History.{on_client}
use nfs4go.Vfs.{Vfs}
use nfs4go.Worker.State.{File, Worker}

-- Membership in a Go map used as a set.
unfoldable pub contains : ℕ → List ℕ → Bool
contains n [] = false
contains n (m ∷ ms) = m == n || contains n ms

module _ {v : Vfs} where
  unfoldable pub add_file :
      File v → List ℕ → Worker v → Clients → Result (ℕ × List ℕ × Worker v × Clients)
  unfolding on_client add_busy
  add_file file draws w cs = do
    (index, draws') ← fresh_key w.files draws
    ok (
      index,
      draws',
      record w { files = insert index file w.files },
      on_client (add_busy (pos 1)) file.client cs,
    )

  unfoldable pub get_file : ℕ → Worker v → Option (File v)
  get_file index w = lookup index w.files

  -- The loop of `GetFileByClientSeqID`; the clients are compared as pointers.
  unfoldable pub find_file : ℕ → ℕ → List (ℕ × File v) → Option ℕ
  find_file client client_seq_id [] = none
  find_file client client_seq_id ((index, f) ∷ rest) =
      if f.client_seq_id == client_seq_id && f.client == client
      then some index
      else find_file client client_seq_id rest

  unfoldable pub get_file_by_client_seq_id : ℕ → ℕ → Worker v → Option ℕ
  unfolding find_file
  get_file_by_client_seq_id client client_seq_id w = find_file client client_seq_id w.files

  unfoldable pub remove_found :
      ℕ → Worker v → Clients → Option (File v) → Option (File v) × Worker v × Clients
  unfolding on_client done
  remove_found index w cs none = (none, w, cs)
  remove_found index w cs (some f) = (
    some f,
    record w { files = erase index w.files; closed_files = index ∷ w.closed_files },
    on_client done f.client cs,
  )

  unfoldable pub remove_file : ℕ → Worker v → Clients → Option (File v) × Worker v × Clients
  unfolding remove_found
  remove_file index w cs = remove_found index w cs (lookup index w.files)

  unfoldable pub is_removed_file : ℕ → Worker v → Bool
  unfolding contains
  is_removed_file index w = contains index w.closed_files
