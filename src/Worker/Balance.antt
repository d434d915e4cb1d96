-- ===== src/Worker/Balance.antt =====
-- worker/file.go and `cleanup`: the counts of the clients over any history of calls.
use nfs4go.Common.{
  ℕ, ◌+◌, ◌≡◌, refl, ap, ◌∙◌, List, [], ◌∷◌, none, some, arith, ◌==◌, if◌then◌else◌, Bool-cases,
  Option-cases, inl, inr, Result, ◌>>=◌, ok, err, panic, stuck,
}
use nfs4go.Common.Assoc.{lookup, insert, IsDistinct, insert-IsDistinct, erase-IsDistinct}
use nfs4go.Common.Int.{ℤ, pos, ◌+ℤ◌, ◌-ℤ◌}
use nfs4go.Clients.Client.{Client, add_busy, done, fresh_key}
use nfs4go.Clients.Preserve.{fresh_key_lem}
use nfs4go.Clients.Table.{Clients}
use nfs4go.Clients.History.{on_client}
use nfs4go.Vfs.{Vfs}
use nfs4go.Worker.State.{File, Worker}
use nfs4go.Worker.Files.{add_file, remove_file, remove_found}
use nfs4go.Worker.Lifecycle.{cleanup, close_files}
use nfs4go.Worker.Counts.{
  Counts, open_files, open_files-insert, open_files-erase, on_client-Counts, add_one, sub_one,
}

-- The calls that open or close files.
pub data FileCall (v : Vfs) : Type 0 where
  adds : File v → List ℕ → FileCall v
  removes : ℕ → FileCall v
  cleans : v.Disk → FileCall v

module _ {v : Vfs} where
  abbrev pub after_add :
      Worker v × Clients → Result (ℕ × List ℕ × Worker v × Clients) → Worker v × Clients
  after_add before (ok (index, draws, w, cs)) = (w, cs)
  after_add before (err e) = before
  after_add before panic = before
  after_add before stuck = before

  unfoldable pub step : FileCall v → Worker v × Clients → Worker v × Clients
  step (adds file draws) (w, cs) = after_add (w, cs) (add_file file draws w cs)
  step (removes index) (w, cs) = let (f, w', cs') = remove_file index w cs in (w', cs')
  step (cleans disk) (w, cs) = let (w', disk', cs') = cleanup w disk cs in (w', cs')

  unfoldable pub run : List (FileCall v) → Worker v × Clients → Worker v × Clients
  run [] before = before
  run (c ∷ calls) before = run calls (step c before)

  module _ (id : ℕ) (base : ℤ) where
    abbrev pub IsBalanced : Worker v × Clients → Type 0
    IsBalanced (w, cs) = IsDistinct w.files × Counts id base w.files cs

    opened :
        (index : ℕ) (f : File v) (w : Worker v) (cs : Clients)
        → lookup index w.files ≡ none
        → IsBalanced (w, cs)
        → IsBalanced
            (record w { files = insert index f w.files }, on_client (add_busy (pos 1)) f.client cs)
    unfolding add_busy
    opened index f w cs free (d, h) =
        let (c, at, e) =
          on_client-Counts (add_busy (pos 1)) (λ n. n +ℤ pos 1) f.client id _ cs (λ c. refl) h in
        (insert-IsDistinct index f w.files d, (c, at, e ∙ counted))
      where
        counted :
            (if f.client == id
              then (base +ℤ pos (open_files id w.files)) +ℤ pos 1
              else base +ℤ pos (open_files id w.files))
            ≡ base +ℤ pos (open_files id (insert index f w.files))
        counted =
            rw (open_files-insert id index f w.files free) (elim (Bool-cases (f.client == id)) [
              | inl hit ↦ rw hit (add_one base (open_files id w.files))
              | inr miss ↦ rw miss (ap (λ (n : ℕ). base +ℤ pos n) (omega arith))
            ])

    closed_file :
        (f : File v) (cs : Clients) (more fewer : ℕ)
        → more ≡ fewer + (if f.client == id then 1 else 0)
        → (c : Client) × (lookup id cs ≡ some c) × (c.busy ≡ base +ℤ pos more)
        → (c : Client) × (lookup id (on_client done f.client cs) ≡ some c)
          × (c.busy ≡ base +ℤ pos fewer)
    unfolding done
    closed_file f cs more fewer same h =
        let (c, at, e) = on_client-Counts done (λ n. n -ℤ pos 1) f.client id _ cs (λ c. refl) h in
        (c, at, e ∙ counted)
      where
        counted :
            (if f.client == id then (base +ℤ pos more) -ℤ pos 1 else base +ℤ pos more)
            ≡ base +ℤ pos fewer
        counted = rw same (elim (Bool-cases (f.client == id)) [
          | inl hit ↦ rw hit (sub_one base fewer)
          | inr miss ↦ rw miss (ap (λ (n : ℕ). base +ℤ pos n) (omega arith))
        ])

    close_files-Counts :
        (files : List (ℕ × File v)) (disk : v.Disk) (cs : Clients)
        → Counts id base files cs
        → Counts {v = v} id base [] (close_files files disk cs).1
    unfolding close_files
    close_files-Counts [] disk cs h = h
    close_files-Counts ((index, f) ∷ rest) disk cs h =
        close_files-Counts rest _ _ (closed_file f cs _ (open_files id rest) (ground arith) h)

    added :
        (f : File v) (w : Worker v) (cs : Clients) (r : Result (ℕ × List ℕ))
        → ((index : ℕ) (draws : List ℕ) → r ≡ ok (index, draws) → lookup index w.files ≡ none)
        → IsBalanced (w, cs)
        → IsBalanced (
            after_add
              (w, cs)
              (do
                (index, draws') ← r
                ok (
                  index,
                  draws',
                  record w { files = insert index f w.files },
                  on_client (add_busy (pos 1)) f.client cs,
                )))
    added f w cs (ok (index, draws)) free h = opened index f w cs (free index draws refl) h
    added f w cs (err e) free h = h
    added f w cs panic free h = h
    added f w cs stuck free h = h

    step-IsBalanced :
        (call : FileCall v) (s : Worker v × Clients) → IsBalanced s → IsBalanced (step call s)
    unfolding step add_file remove_file remove_found cleanup
    step-IsBalanced (adds f draws) (w, cs) h =
        added f w cs (fresh_key w.files draws) (λ index draws' e. fresh_key_lem w.files draws e) h
    step-IsBalanced (removes index) (w, cs) (d, h) = elim (Option-cases (lookup index w.files)) [
      | inl missing ↦ rw (missing, remove_found) (d, h)
      | inr (f, found) ↦
          rw (found, remove_found)
            (
              erase-IsDistinct index w.files d,
              closed_file f cs _ _ (open_files-erase id index f w.files d found) h,
            )
    ]
    step-IsBalanced (cleans disk) (w, cs) (d, h) = (tt, close_files-Counts w.files _ cs h)

    run-IsBalanced :
        (calls : List (FileCall v)) (s : Worker v × Clients)
        → IsBalanced s
        → IsBalanced (run calls s)
    unfolding run
    run-IsBalanced [] s h = h
    run-IsBalanced (c ∷ calls) s h = run-IsBalanced calls (step c s) (step-IsBalanced c s h)

-- Over any history of opened, closed and cleaned-up files, the count of a client in the table changes by
-- as much as the number of its files that are open in the worker: it stays that number on top of
-- what it counts elsewhere.
pub busy_run :
    {v : Vfs} (id : ℕ) (elsewhere : ℤ) (calls : List (FileCall v)) (w : Worker v) (cs : Clients)
    → IsDistinct w.files
    → Counts id elsewhere w.files cs
    → Counts id elsewhere (run calls (w, cs)).0.files (run calls (w, cs)).1
busy_run id elsewhere calls w cs d h = (run-IsBalanced id elsewhere calls (w, cs) (d, h)).1
