-- ===== src/Worker/Listed.antt =====
-- worker/lister.go: which index an open directory gets, and how long it is kept.
use nfs4go.Common.{
  ℕ, ◌+◌, ◌≡◌, ◌≢◌, Bool, true, false, not, List, [], ◌∷◌, Option, none, some, arith, ◌==◌, ◌||◌,
  leb, if◌then◌else◌, Option-cases, Bool-cases, inl, inr, ok,
}
use nfs4go.Common.Assoc.{lookup, insert, lookup-insert}
use nfs4go.Vfs.{Vfs}
use nfs4go.Worker.State.{Lister, Worker}
use nfs4go.Worker.Listers.{add_lister, free_index, is_taken, eof_lister, lister_expiration}

module _ {v : Vfs} where
  -- Whether one of the random numbers can serve.
  abbrev pub has_free : List (ℕ × Lister v) → List ℕ → Bool
  has_free listers [] = false
  has_free listers (d ∷ draws) = not (is_taken d listers) || has_free listers draws

  free_index_ends :
      (index : ℕ) (listers : List (ℕ × Lister v)) (draws : List ℕ)
      → has_free listers (index ∷ draws) ≡ true
      → (i : ℕ) × (rest : List ℕ) × (free_index index listers draws ≡ ok (i, rest))
        × (is_taken i listers ≡ false)
  unfolding free_index
  free_index_ends index listers [] h = (index, [], ground arith, ground arith)
  free_index_ends index listers (d ∷ draws) h = elim (Bool-cases (is_taken index listers)) [
    | inl taken ↦ rw taken (free_index_ends d listers draws (ground (arith, taken)))
    | inr free ↦ (index, d ∷ draws, ground (arith, free), free)
  ]

  not_taken :
      (i : ℕ) (listers : List (ℕ × Lister v))
      → is_taken i listers ≡ false
      → (lookup i listers ≡ none) × (i ≢ eof_lister)
  not_taken i listers h = elim (Option-cases (lookup i listers)) [
    | inl free ↦ (free, ground (arith, free))
    | inr (l, found) ↦ absurd (ground (arith, found))
  ]

  pub record Listed (index : ℕ) (listing : v.Listing) (now : ℕ) (w w' : Worker v) : Type 0 where
    pub was_free : lookup index w.listers ≡ none
    pub no_end : index ≢ eof_lister
    pub found :
        (j : ℕ)
        → lookup j w'.listers ≡ (
            if index == j
            then some (record { lister = listing; last_seen = now })
            else lookup j w.listers)

  -- If 0 or one of the random numbers is a free index other than `EOFLister`, `AddLister` ends: it gives
  -- such an index, under which the open directory is stored as seen now, and the rest is unchanged.
  pub add_lister_ends :
      (listing : v.Listing) (now : ℕ) (draws : List ℕ) (w : Worker v)
      → has_free w.listers (0 ∷ draws) ≡ true
      → (index : ℕ) × (rest : List ℕ) × (w' : Worker v) × (add_lister listing now draws w
          ≡ ok (index, rest, w'))
        × Listed index listing now w w'
  unfolding add_lister
  add_lister_ends listing now draws w h =
      let (i, rest, e, free) = free_index_ends 0 w.listers draws h in
      let (absent, real) = not_taken i w.listers free in
      let l : Lister v = record { lister = listing; last_seen = now } in
      (
        i,
        rest,
        record w { listers = insert i l w.listers },
        rw e,
        record { was_free = absent; no_end = real; found = λ j. lookup-insert i j l w.listers },
      )

  -- An open directory that was seen within the expiration time stays.
  abbrev pub kept_lister : ℕ → Option (Lister v) → Option (Lister v)
  kept_lister now none = none
  kept_lister now (some l) = if leb now (l.last_seen + lister_expiration) then some l else none
