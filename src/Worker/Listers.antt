-- ===== src/Worker/Listers.antt =====
-- worker/lister.go: the open directories of a worker.
use nfs4go.Common.{
  ℕ, ◌+◌, ◌*◌, Bool, true, false, ◌||◌, List, [], ◌∷◌, Option, none, some, leb, ◌==◌, if◌then◌else◌,
  Result, ok, stuck, ◌>>=◌,
}
use nfs4go.Common.Assoc.{lookup, insert, erase}
use nfs4go.Vfs.{Vfs}
use nfs4go.Worker.Cache.{second}
use nfs4go.Worker.State.{Lister, Worker}

abbrev pub eof_lister : ℕ
eof_lister = 0xffffffffffffffff

abbrev pub lister_expiration : ℕ
lister_expiration = 60 * second

abbrev pub is_some : {A : Type 0} → Option A → Bool
is_some none = false
is_some (some a) = true

module _ {v : Vfs} where
  abbrev pub is_taken : ℕ → List (ℕ × Lister v) → Bool
  is_taken index listers = is_some (lookup index listers) || index == eof_lister

  -- The loop of `AddLister`: random numbers until one is free. With no draw left the loop has not ended.
  unfoldable pub free_index : ℕ → List (ℕ × Lister v) → List ℕ → Result (ℕ × List ℕ)
  free_index index listers [] = if is_taken index listers then stuck else ok (index, [])
  free_index index listers (d ∷ draws) =
      let again = free_index d listers draws in
      if is_taken index listers then again else ok (index, d ∷ draws)

  -- `index` starts as the zero value.
  unfoldable pub add_lister : v.Listing → ℕ → List ℕ → Worker v → Result (ℕ × List ℕ × Worker v)
  unfolding free_index
  add_lister listing now draws w = do
    (index, draws') ← free_index 0 w.listers draws
    ok (
      index,
      draws',
      record w { listers = insert index (record { lister = listing; last_seen = now }) w.listers },
    )

  unfoldable pub get_found_lister :
      ℕ → ℕ → Worker v → Option (Lister v) → Option (v.Listing) × Worker v
  get_found_lister index now w none = (none, w)
  get_found_lister index now w (some l) =
      (some l.lister, record w { listers = insert index (record l { last_seen = now }) w.listers })

  unfoldable pub get_lister : ℕ → ℕ → Worker v → Option (v.Listing) × Worker v
  unfolding get_found_lister
  get_lister index now w = get_found_lister index now w (lookup index w.listers)

  unfoldable pub close_found_lister :
      ℕ → Worker v → v.Disk → Option (Lister v) → Result (Unit {0}) × Worker v × v.Disk
  close_found_lister index w disk none = (ok tt, w, disk)
  close_found_lister index w disk (some l) =
      let (r, disk') = v.close_listing l.lister disk in
      (r, record w { listers = erase index w.listers }, disk')

  unfoldable pub close_lister : ℕ → Worker v → v.Disk → Result (Unit {0}) × Worker v × v.Disk
  unfolding close_found_lister
  close_lister index w disk = close_found_lister index w disk (lookup index w.listers)

  -- The loop of `cleanupListers` over the map; an error of `Close` is only logged.
  unfoldable pub expire_listers : ℕ → List (ℕ × Lister v) → v.Disk → List (ℕ × Lister v) × v.Disk
  expire_listers now [] disk = ([], disk)
  expire_listers now ((index, l) ∷ rest) disk =
      let fresh = leb now (l.last_seen + lister_expiration) in
      let (kept, disk') =
        expire_listers now rest (if fresh then disk else (v.close_listing l.lister disk).1) in
      (if fresh then (index, l) ∷ kept else kept, disk')

  -- One tick of `cleanupListers`.
  unfoldable pub cleanup_listers : ℕ → Worker v → v.Disk → Worker v × v.Disk
  unfolding expire_listers
  cleanup_listers now w disk =
      let (kept, disk') = expire_listers now w.listers disk in
      if w.discarded then (w, disk) else (record w { listers = kept }, disk')
