-- ===== src/Worker/Cache.antt =====
-- worker/cache.go: what `Lstat` told of a handle, for a limited time.
use nfs4go.Common.{ℕ, Bool, ◌+◌, ◌*◌, List, [], ◌∷◌, Option, none, some, leb, if◌then◌else◌}
use nfs4go.Common.Keyed.{lookup, insert, erase}

-- Times are counted in nanoseconds.
abbrev pub second : ℕ
second = 1000000000

pub record Entry (I : Type 0) : Type 0 where
  pub path : List ℕ
  pub info : I

pub record SavedEntry (I : Type 0) : Type 0 where
  pub time : ℕ
  pub entry : Entry I

pub record Cache (I : Type 0) : Type 0 where
  pub timeout : ℕ
  pub entries : List (List ℕ × SavedEntry I)

abbrev pub default_timeout : ℕ
default_timeout = 30 * second

module _ {I : Type 0} where
  unfoldable pub new_cache : ℕ → Cache I
  new_cache timeout = record { timeout = timeout; entries = [] }

  -- `clock.Since(entry.time) > c.Timeout` fails.
  abbrev pub is_fresh : ℕ → ℕ → SavedEntry I → Bool
  is_fresh now timeout saved = leb now (saved.time + timeout)

  unfoldable pub get_saved : ℕ → ℕ → Option (SavedEntry I) → Option (Entry I)
  get_saved now timeout none = none
  get_saved now timeout (some saved) = if is_fresh now timeout saved then some saved.entry else none

  unfoldable pub get : ℕ → List ℕ → Cache I → Option (Entry I)
  unfolding get_saved
  get now handle c = get_saved now c.timeout (lookup handle c.entries)

  unfoldable pub put : ℕ → List ℕ → Entry I → Cache I → Cache I
  put now handle entry c = record c {
    entries = insert handle (record { time = now; entry = entry }) c.entries;
  }

  unfoldable pub invalidate : List ℕ → Cache I → Cache I
  invalidate handle c = record c { entries = erase handle c.entries }

  -- One round of the loop of `gc`.
  unfoldable pub collect_entries :
      ℕ → ℕ → List (List ℕ × SavedEntry I) → List (List ℕ × SavedEntry I)
  collect_entries now timeout [] = []
  collect_entries now timeout ((handle, saved) ∷ rest) =
      let kept = collect_entries now timeout rest in
      if is_fresh now timeout saved then (handle, saved) ∷ kept else kept

  unfoldable pub collect : ℕ → Cache I → Cache I
  unfolding collect_entries
  collect now c = record c { entries = collect_entries now c.timeout c.entries }
