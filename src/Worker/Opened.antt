-- ===== src/Worker/Opened.antt =====
-- worker/file.go: what the calls on open files tell later calls.
use nfs4go.Common.{
  ℕ, ◌≡◌, refl, sym, List, Option, none, some, arith, ◌==◌, ◌||◌, ◌&&◌, if◌then◌else◌, Option-cases,
  inl, inr, ok, >>=-eq-ok, ok-injective, subst,
}
use nfs4go.Common.Assoc.{lookup, lookup-insert, lookup-erase}
use nfs4go.Clients.Client.{fresh_key}
use nfs4go.Clients.Preserve.{fresh_key_lem}
use nfs4go.Clients.Table.{Clients}
use nfs4go.Vfs.{Vfs}
use nfs4go.Worker.State.{File, Worker}
use nfs4go.Worker.Files.{add_file, get_file, remove_file, remove_found, is_removed_file, contains}
use nfs4go.Worker.Listers.{is_some}

module _ {v : Vfs} where
  pub record Added (index : ℕ) (f : File v) (w w' : Worker v) : Type 0 where
    pub was_free : get_file index w ≡ none
    pub found : (j : ℕ) → get_file j w' ≡ (if index == j then some f else get_file j w)
    pub marks : (j : ℕ) → is_removed_file j w' ≡ is_removed_file j w

  -- `AddFile` gives an index that no open file has; then `GetFile` finds the file there, finds the same as
  -- before at every other index, and `IsRemovedFile` answers as before, also at the new index.
  pub get_file-add_file :
      (f : File v) (draws draws' : List ℕ) (w w' : Worker v) (cs cs' : Clients) (index : ℕ)
      → add_file f draws w cs ≡ ok (index, draws', w', cs')
      → Added index f w w'
  unfolding add_file get_file is_removed_file
  get_file-add_file f draws draws' w w' cs cs' index e =
      let ((i, rest), p, q) = >>=-eq-ok (fresh_key w.files draws) _ e in
      subst (λ (x : ℕ × List ℕ × Worker v × Clients). Added x.0 f w x.2) (ok-injective q)
        (record {
          was_free = fresh_key_lem w.files draws p;
          found = λ j. lookup-insert i j f w.files;
          marks = λ j. refl;
        })

  pub record Removed (index : ℕ) (w w' : Worker v) (given : Option (File v)) : Type 0 where
    pub gives : given ≡ get_file index w
    pub found : (j : ℕ) → get_file j w' ≡ (if index == j then none else get_file j w)
    pub marks :
        (j : ℕ)
        → is_removed_file j w' ≡ ((index == j && is_some (get_file index w)) || is_removed_file j w)

  -- `RemoveFile` gives the file that `GetFile` finds; after it `GetFile` finds nothing at this index and
  -- the same as before at every other, and `IsRemovedFile` holds of this index, if a file was open
  -- there, and of what it held before.
  pub get_file-remove_file :
      (index : ℕ) (w : Worker v) (cs : Clients)
      → Removed index w (remove_file index w cs).1 (remove_file index w cs).0
  unfolding remove_file remove_found get_file is_removed_file contains
  get_file-remove_file index w cs = elim (Option-cases (lookup index w.files)) [
    | inl missing ↦
        rw (missing, remove_found)
          (record {
            gives = sym missing;
            found = λ j. ground (arith, missing);
            marks = λ j. ground (arith, missing);
          })
    | inr (f, found) ↦
        rw (found, remove_found)
          (record {
            gives = sym found;
            found = λ j. lookup-erase index j w.files;
            marks = λ j. ground (arith, found);
          })
  ]
