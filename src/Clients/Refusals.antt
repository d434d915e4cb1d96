-- ===== src/Clients/Refusals.antt =====
-- clients/clients.go: the errors of `Add` and `Confirm41` are statuses, and none of them is NFS4_OK.
use nfs4go.Common.{
  Option-cases, inl, inr, ℕ, ◌≡◌, refl, Bool, true, false, ◌==◌, if◌then◌else◌, List, [], ◌∷◌, none,
  some, Result, ok, err, panic, stuck, ◌>>=◌,
}
use nfs4go.Common.Assoc.{lookup, insert}
use nfs4go.Auth.{Creds}
use nfs4go.Clients.Client.{Client, draw, fresh_key}
use nfs4go.Clients.Table.{
  Clients, add, add_new, update_same, find_same, in_use_by_other, confirm41, confirm41_found,
  confirmed41, unconfirmed41,
}
use nfs4go.Msg.Status.{nfs4_ok, err2status}

-- An error has another status than NFS4_OK.
unfoldable pub Refuses : {A : Type 0} → Result A → Type 0
Refuses (ok a) = Unit
Refuses (err e) = (err2status e == nfs4_ok) ≡ false
Refuses panic = Unit
Refuses stuck = Unit

bind-Refuses :
    {A B : Type 0} (r : Result A) (k : A → Result B)
    → Refuses r
    → ((a : A) → Refuses (k a))
    → Refuses (r >>= k)
unfolding Refuses
bind-Refuses (ok a) k h g = g a
bind-Refuses (err e) k h g = h
bind-Refuses panic k h g = tt
bind-Refuses stuck k h g = tt

if-Refuses :
    {A : Type 0} (t : Bool) (x y : Result A) → Refuses x → Refuses y → Refuses (if t then x else y)
if-Refuses true x y h g = h
if-Refuses false x y h g = g

draw-Refuses : (draws : List ℕ) → Refuses (draw draws)
unfolding draw Refuses
draw-Refuses [] = tt
draw-Refuses (d ∷ draws) = tt

fresh_key-Refuses : {V : Type 0} (m : List (ℕ × V)) (draws : List ℕ) → Refuses (fresh_key m draws)
unfolding fresh_key Refuses
fresh_key-Refuses m [] = tt
fresh_key-Refuses m (d ∷ draws) = elim (Option-cases (lookup d m)) [
  | inl free ↦ rw (free, Refuses) tt
  | inr (v, taken) ↦ rw (taken, Refuses) (fresh_key-Refuses m draws)
]

pub add-Refuses :
    (now : ℕ) (draws : List ℕ) (client : Client) (cs : Clients) → Refuses (add now draws client cs)
unfolding add add_new update_same Refuses err2status
add-Refuses now draws client cs =
    if-Refuses (in_use_by_other client.name client.creds cs) _ _ refl
      (elim (find_same client.name client.verifier cs)
        as (λ o. Refuses (elim o [
          | some (id, stored) ↦ update_same now draws id stored cs
          | none ↦ add_new now draws client cs
        ])) [
          | some (id, stored) ↦ bind-Refuses _ _ (draw-Refuses draws) (λ a. tt)
          | none ↦
              bind-Refuses _ _ (fresh_key-Refuses cs draws)
                (λ a. bind-Refuses _ _ (draw-Refuses a.1) (λ b. tt))
        ])

pub confirm41-Refuses :
    (now id seq_id : ℕ) (creds : Creds) (cs : Clients) → Refuses (confirm41 now id seq_id creds cs)
unfolding confirm41 confirm41_found confirmed41 unconfirmed41 Refuses err2status
confirm41-Refuses now id seq_id creds cs = elim (Option-cases (lookup id cs)) [
  | inl missing ↦ rw missing refl
  | inr (c, stored) ↦ rw stored (
      bind-Refuses
        (if c.confirmed then confirmed41 now seq_id c else unconfirmed41 now seq_id creds c)
        (λ c'. ok (insert id c' cs)) (search (if-Refuses, refl, tt)) (λ c'. tt))
]
