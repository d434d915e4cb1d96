-- ===== src/Clients/History.antt =====
-- The calls of the table as one step each, and what holds after any history of calls.
use nfs4go.Common.{
  ℕ, ◌≡◌, refl, List, [], ◌∷◌, Option, none, some, Option-cases, inl, inr, Result, ok, err, panic,
  stuck,
}
use nfs4go.Common.Assoc.{lookup, insert}
use nfs4go.Common.Int.{pos}
use nfs4go.Auth.{Creds}
use nfs4go.Bufpool.{Pool}
use nfs4go.Clients.Client.{Client, add_busy, done}
use nfs4go.Clients.Table.{
  Clients, Added, add, confirm, confirm41, get, get_by_name, remove_client, remove_expired,
}
use nfs4go.Clients.Invariant.{IsValid, SameTag, IsValid-insert_same, IsValid-remove_expired}
use nfs4go.Clients.Preserve.{
  add-IsValid, confirm-IsValid, confirm41-IsValid, get-IsValid, get_by_name-IsValid,
  remove_client-IsValid,
}

-- A change of a client through the pointer that a file holds.
unfoldable pub on_client : (Client → Client) → ℕ → Clients → Clients
on_client f id cs = elim (lookup id cs) [ none ↦ cs | some c ↦ insert id (f c) cs ]

-- `adds` is EXCHANGE_ID or SETCLIENTID with the clock and the random numbers; `opens` and `closes` are
-- `Client.Add(1)` and `Client.Done` of a file.
pub data Call : Type 0 where
  adds : ℕ → List ℕ → Client → Call
  confirms : ℕ → ℕ → ℕ → Creds → Call
  confirms41 : ℕ → ℕ → ℕ → Creds → Call
  gets : ℕ → ℕ → Call
  gets_by_name : ℕ → List ℕ → ℕ → Creds → Call
  removes : ℕ → Call
  expires : ℕ → ℕ → Pool → Call
  opens closes : ℕ → Call

-- A call that fails leaves the table as it was.
abbrev pub after : Clients → Result Clients → Clients
after cs (ok cs') = cs'
after cs (err e) = cs
after cs panic = cs
after cs stuck = cs

abbrev pub after_add : Clients → Result Added → Clients
after_add cs (ok a) = a.clients
after_add cs (err e) = cs
after_add cs panic = cs
after_add cs stuck = cs

abbrev pub after_get : {A : Type 0} → Clients → Option (A × Clients) → Clients
after_get cs none = cs
after_get cs (some (a, cs')) = cs'

unfoldable pub step : Call → Clients → Clients
step (adds now draws client) cs = after_add cs (add now draws client cs)
step (confirms now id value creds) cs = after cs (confirm now id value creds cs)
step (confirms41 now id seq_id creds) cs = after cs (confirm41 now id seq_id creds cs)
step (gets now id) cs = after_get cs (get now id cs)
step (gets_by_name now name verifier creds) cs =
    after_get cs (get_by_name now name verifier creds cs)
step (removes id) cs = after cs (remove_client id cs)
step (expires now expiration pool) cs = (remove_expired now expiration cs pool).1
step (opens id) cs = on_client (add_busy (pos 1)) id cs
step (closes id) cs = on_client done id cs

unfoldable pub run : List Call → Clients → Clients
run [] cs = cs
run (c ∷ calls) cs = run calls (step c cs)

after-IsValid :
    (cs : Clients) (r : Result Clients)
    → IsValid cs
    → ((cs' : Clients) → r ≡ ok cs' → IsValid cs')
    → IsValid (after cs r)
after-IsValid cs (ok cs') v k = k cs' refl
after-IsValid cs (err e) v k = v
after-IsValid cs panic v k = v
after-IsValid cs stuck v k = v

after_add-IsValid :
    (cs : Clients) (r : Result Added)
    → IsValid cs
    → ((a : Added) → r ≡ ok a → IsValid a.clients)
    → IsValid (after_add cs r)
after_add-IsValid cs (ok a) v k = k a refl
after_add-IsValid cs (err e) v k = v
after_add-IsValid cs panic v k = v
after_add-IsValid cs stuck v k = v

after_get-IsValid :
    {A : Type 0} (cs : Clients) (r : Option (A × Clients))
    → IsValid cs
    → ((a : A) (cs' : Clients) → r ≡ some (a, cs') → IsValid cs')
    → IsValid (after_get cs r)
after_get-IsValid cs none v k = v
after_get-IsValid cs (some (a, cs')) v k = k a cs' refl

on_client-IsValid :
    (f : Client → Client) (id : ℕ) (cs : Clients)
    → ((c : Client) → SameTag c (f c))
    → IsValid cs
    → IsValid (on_client f id cs)
unfolding on_client
on_client-IsValid f id cs t v = elim (Option-cases (lookup id cs)) [
  | inl missing ↦ rw (missing, on_client) v
  | inr (c, found) ↦ rw (found, on_client) (IsValid-insert_same id c (f c) cs found (t c) v)
]

opens-tag : (c : Client) → SameTag c (add_busy (pos 1) c)
unfolding add_busy
opens-tag c = record { same_id = refl; same_name = refl; same_verifier = refl }

closes-tag : (c : Client) → SameTag c (done c)
unfolding done
closes-tag c = record { same_id = refl; same_name = refl; same_verifier = refl }

-- Every call keeps the table valid, whether it succeeds or fails: each client is stored under its id,
-- the keys are distinct, and no two clients have the same name and verifier.
pub step-IsValid : (c : Call) (cs : Clients) → IsValid cs → IsValid (step c cs)
unfolding step
step-IsValid (adds now draws client) cs v =
    after_add-IsValid cs _ v (λ a e. add-IsValid now draws client cs a v e)
step-IsValid (confirms now id value creds) cs v =
    after-IsValid cs _ v (λ cs' e. confirm-IsValid now id value creds cs cs' v e)
step-IsValid (confirms41 now id seq_id creds) cs v =
    after-IsValid cs _ v (λ cs' e. confirm41-IsValid now id seq_id creds cs cs' v e)
step-IsValid (gets now id) cs v =
    after_get-IsValid cs _ v (λ c cs' e. get-IsValid now id cs cs' c v e)
step-IsValid (gets_by_name now name verifier creds) cs v =
    after_get-IsValid cs _ v (λ id cs' e. get_by_name-IsValid now name verifier creds cs cs' id v e)
step-IsValid (removes id) cs v = after-IsValid cs _ v (λ cs' e. remove_client-IsValid id cs cs' v e)
step-IsValid (expires now expiration pool) cs v = IsValid-remove_expired now expiration cs pool v
step-IsValid (opens id) cs v = on_client-IsValid _ id cs opens-tag v
step-IsValid (closes id) cs v = on_client-IsValid _ id cs closes-tag v

run_keeps : (calls : List Call) (cs : Clients) → IsValid cs → IsValid (run calls cs)
unfolding run
run_keeps [] cs v = v
run_keeps (c ∷ calls) cs v = run_keeps calls (step c cs) (step-IsValid c cs v)

-- After any history of calls on the empty table of `New`, each client is stored under its id, the keys
-- are distinct, and no two clients have the same name and verifier.
pub run-IsValid : (calls : List Call) → IsValid (run calls [])
run-IsValid calls = run_keeps calls [] (record { keyed = tt; apart = tt })
