-- ===== src/Worker/Cached.antt =====
-- worker/cache.go: what `Get` gives after other calls.
use nfs4go.Common.{
  ℕ, ◌+◌, ◌≤◌, ◌≡◌, refl, sym, ap, ◌∙◌, List, [], ◌∷◌, Option, none, some, arith, leb,
  if◌then◌else◌, Bool-cases, inl, inr, list_eq, list_eq-eq, All,
}
use nfs4go.Common.Keyed.{
  lookup, lookup-insert, lookup-erase, IsDistinct, insert-IsDistinct, erase-IsDistinct,
}
use nfs4go.Worker.Cache.{
  Cache, Entry, new_cache, SavedEntry, get, get_saved, put, invalidate, collect, collect_entries,
  is_fresh,
}

-- A call that changes the cache, with the time it looks at.
pub data CacheCall (I : Type 0) : Type 0 where
  puts : ℕ → List ℕ → Entry I → CacheCall I
  invalidates : List ℕ → CacheCall I
  collects : ℕ → CacheCall I

module _ {I : Type 0} where
  unfoldable pub step : CacheCall I → Cache I → Cache I
  step (puts now handle entry) c = put now handle entry c
  step (invalidates handle) c = invalidate handle c
  step (collects now) c = collect now c

  unfoldable pub run : List (CacheCall I) → Cache I → Cache I
  run [] c = c
  run (call ∷ calls) c = run calls (step call c)

  -- What the last `Put` of the handle saved, unless it was invalidated since: no cache, only the calls.
  abbrev pub latest : List ℕ → Option (SavedEntry I) → List (CacheCall I) → Option (SavedEntry I)
  latest asked saved [] = saved
  latest asked saved (puts now handle entry ∷ calls) =
      latest asked
        (if list_eq handle asked then some (record { time = now; entry = entry }) else saved) calls
  latest asked saved (invalidates handle ∷ calls) =
      latest asked (if list_eq handle asked then none else saved) calls
  latest asked saved (collects now ∷ calls) = latest asked saved calls

  -- The entry that was saved, if it is not older than the timeout.
  abbrev pub unexpired : ℕ → ℕ → Option (SavedEntry I) → Option (Entry I)
  unexpired now timeout none = none
  unexpired now timeout (some saved) =
      if leb now (saved.time + timeout) then some saved.entry else none

  -- No round of `gc` saw a later time than this.
  abbrev pub IsBefore : ℕ → CacheCall I → Type 0
  IsBefore later (puts now handle entry) = Unit {0}
  IsBefore later (invalidates handle) = Unit {0}
  IsBefore later (collects now) = now ≤ later

  lookup-collect_entries :
      (now timeout : ℕ) (handle : List ℕ) (entries : List (List ℕ × SavedEntry I))
      → lookup handle entries ≡ none
      → lookup handle (collect_entries now timeout entries) ≡ none
  unfolding lookup collect_entries
  lookup-collect_entries now timeout handle [] e = refl
  lookup-collect_entries now timeout handle ((other, saved) ∷ rest) e =
      ground (arith, lookup-collect_entries now timeout handle rest)

  get_saved-collect_entries :
      (now later timeout : ℕ) (handle : List ℕ) (entries : List (List ℕ × SavedEntry I))
      → now ≤ later
      → IsDistinct entries
      → get_saved later timeout (lookup handle (collect_entries now timeout entries))
        ≡ get_saved later timeout (lookup handle entries)
  unfolding lookup collect_entries get_saved
  get_saved-collect_entries now later timeout handle [] h d = refl
  get_saved-collect_entries now later timeout handle ((other, saved) ∷ rest) h (free, d) =
      elim (Bool-cases (list_eq other handle)) [
        | inl hit ↦
            let gone : lookup handle rest ≡ none =
              ap (λ (k : List ℕ). lookup k rest) (sym (list_eq-eq other handle hit)) ∙ free in
            ground (arith, hit, lookup-collect_entries now timeout handle rest gone)
        | inr miss ↦
            ground (arith, miss, get_saved-collect_entries now later timeout handle rest h d)
      ]

  get-collect :
      (now later : ℕ) (handle : List ℕ) (c : Cache I)
      → now ≤ later
      → IsDistinct c.entries
      → get later handle (collect now c) ≡ get later handle c
  unfolding get collect
  get-collect now later handle c h d =
      get_saved-collect_entries now later c.timeout handle c.entries h d

  collect_entries-IsDistinct :
      (now timeout : ℕ) (entries : List (List ℕ × SavedEntry I))
      → IsDistinct entries
      → IsDistinct (collect_entries now timeout entries)
  unfolding collect_entries
  collect_entries-IsDistinct now timeout [] d = tt
  collect_entries-IsDistinct now timeout ((other, saved) ∷ rest) (free, d) =
      elim (Bool-cases (is_fresh now timeout saved)) [
        | inl kept ↦ rw kept (
          lookup-collect_entries now timeout other rest free,
          collect_entries-IsDistinct now timeout rest d,
        )
        | inr gone ↦ rw gone (collect_entries-IsDistinct now timeout rest d)
      ]

  -- After `Put` the handle has the entry until the timeout is over; other handles are as they were.
  get-put :
      (now later : ℕ) (handle asked : List ℕ) (entry : Entry I) (c : Cache I)
      → get later asked (put now handle entry c) ≡ (
          if list_eq handle asked
          then (if leb later (now + c.timeout) then some entry else none)
          else get later asked c)
  unfolding get put get_saved
  get-put now later handle asked entry c =
      ground (arith, lookup-insert handle asked (record { time = now; entry = entry }) c.entries)

  get-invalidate :
      (later : ℕ) (handle asked : List ℕ) (c : Cache I)
      → get later asked (invalidate handle c)
        ≡ (if list_eq handle asked then none else get later asked c)
  unfolding get invalidate get_saved
  get-invalidate later handle asked c = ground (arith, lookup-erase handle asked c.entries)

  step_latest :
      (later : ℕ) (asked : List ℕ) (calls : List (CacheCall I)) (c : Cache I)
      → (saved : Option (SavedEntry I)) → All (IsBefore later) calls
      → IsDistinct c.entries
      → get later asked c ≡ unexpired later c.timeout saved
      → get later asked (run calls c) ≡ unexpired later c.timeout (latest asked saved calls)
  unfolding run step put invalidate collect
  step_latest later asked [] c saved b d e = e
  step_latest later asked (puts now handle entry ∷ calls) c saved (b, bs) d e =
      step_latest later asked calls (put now handle entry c) _ bs
        (insert-IsDistinct handle _ c.entries d)
        (get-put now later handle asked entry c
          ∙ elim (Bool-cases (list_eq handle asked)) [ inl hit ↦ rw hit | inr miss ↦ rw miss e ])
  step_latest later asked (invalidates handle ∷ calls) c saved (b, bs) d e =
      step_latest later asked calls (invalidate handle c) _ bs (erase-IsDistinct handle c.entries d)
        (get-invalidate later handle asked c
          ∙ elim (Bool-cases (list_eq handle asked)) [ inl hit ↦ rw hit | inr miss ↦ rw miss e ])
  step_latest later asked (collects now ∷ calls) c saved (b, bs) d e =
      step_latest later asked calls (collect now c) saved bs
        (collect_entries-IsDistinct now c.timeout c.entries d)
        (get-collect now later asked c b d ∙ e)

  -- After any calls on a new cache, `Get` gives exactly what the last `Put` of the handle saved, if there
  -- was no `Invalidate` of it since and it is not older than the timeout, provided that no round of `gc`
  -- saw a later time than `Get` sees; the rounds of `gc` make no difference.
  pub get-run :
      (timeout later : ℕ) (asked : List ℕ) (calls : List (CacheCall I))
      → All (IsBefore later) calls
      → get later asked (run calls (new_cache timeout))
        ≡ unexpired later timeout (latest asked none calls)
  unfolding new_cache get get_saved lookup
  get-run timeout later asked calls b =
      step_latest later asked calls (new_cache timeout) none b tt refl
