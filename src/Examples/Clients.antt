-- ===== src/Examples/Clients.antt =====
-- Histories of clients/ at which its theorems are applied.
use nfs4go.Common.{◌≡◌, refl, true, false, [], ◌∷◌}
use nfs4go.Common.Assoc.{lookup}
use nfs4go.Common.Int.{pos}
use nfs4go.Clients.Client.{Client}
use nfs4go.Clients.Table.{Clients, Added, remove_expired}
use nfs4go.Clients.Invariant.{IsValid}
use nfs4go.Clients.History.{adds, confirms, removes, step, run, run-IsValid, step-IsValid}
use nfs4go.Clients.Leases.{IsHeld, busy_after, step-IsHeld}
use nfs4go.Clients.Expiry.{kept, lookup-remove_expired}
use nfs4go.Examples.Codec.{alice}

-- What EXCHANGE_ID passes to `Add`.
abbrev laptop : Client
laptop = record {
  name = 1 ∷ [];
  verifier = 5;
  creds = alice;
  client_id = 0;
  last_seen = 0;
  confirmed = false;
  confirm_value = 0;
  seq_id = 0;
  busy = pos 0;
  sessions = [];
}

abbrev held_client : Client
held_client = record laptop { client_id = 40; confirmed = true; busy = pos 1 }

abbrev one_held : Clients
one_held = (40, held_client) ∷ []

one_held-IsValid : IsValid one_held
one_held-IsValid = record { keyed = (refl, tt); apart = (tt, tt) }

one_held-IsHeld : IsHeld 40 (pos 1) one_held
unfolding lookup
one_held-IsHeld = (held_client, refl, refl, refl)

step-IsValid_example : IsValid (step (removes 40) one_held)
step-IsValid_example = step-IsValid (removes 40) one_held one_held-IsValid

run-IsValid_example : IsValid (run (adds 0 (40 ∷ 41 ∷ []) laptop ∷ confirms 1 40 41 alice ∷ []) [])
run-IsValid_example = run-IsValid (adds 0 (40 ∷ 41 ∷ []) laptop ∷ confirms 1 40 41 alice ∷ [])

step-IsHeld_example : IsHeld 40 (busy_after (removes 40) 40 (pos 1)) (step (removes 40) one_held)
step-IsHeld_example =
    step-IsHeld (removes 40) 40 (pos 1) one_held one_held-IsValid refl one_held-IsHeld

lookup-remove_expired_example :
    lookup 40 (remove_expired 900 300 one_held (record { bufs = [] })).1
    ≡ kept 900 300 (lookup 40 one_held)
lookup-remove_expired_example =
    lookup-remove_expired 900 300 40 one_held (record { bufs = [] }) one_held-IsValid

abbrev registered : Added
registered = record {
  id = 40;
  confirm_value = 41;
  seq_id = 1;
  clients = (40, record laptop { client_id = 40; confirm_value = 41; seq_id = 1 }) ∷ [];
  draws = [];
}
