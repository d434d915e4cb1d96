-- ===== src/Clients/Expiry.antt =====
-- What the table still has once clients that expired, or are not confirmed, are removed.
use nfs4go.Common.{
  ℕ, ◌≡◌, refl, true, List, [], ◌∷◌, Option, none, some, arith, ◌==◌, if◌then◌else◌, Option-cases,
  Bool-cases, inl, inr, All,
}
use nfs4go.Common.Assoc.{lookup}
use nfs4go.Bufpool.{Pool}
use nfs4go.Clients.Client.{Client}
use nfs4go.Clients.Table.{Clients, remove_expired, remove_unconfirmed, stays}
use nfs4go.Clients.Invariant.{IsValid, Apart, AllApart, All-lookup, All-remove_expired}

pub lookup-remove_unconfirmed :
    (name : List ℕ) (id : ℕ) (cs : Clients) (c : Client)
    → lookup id cs ≡ some c
    → c.confirmed ≡ true
    → lookup id (remove_unconfirmed name cs) ≡ some c
unfolding lookup remove_unconfirmed
lookup-remove_unconfirmed name id [] c e h = cc
lookup-remove_unconfirmed name id ((j, d) ∷ cs) c e h = elim (Bool-cases (j == id)) [
  | inl hit ↦ ground (arith, hit)
  | inr miss ↦ ground (arith, miss, lookup-remove_unconfirmed name id cs c)
]

absent :
    (j id : ℕ) (d : Client) (cs : Clients) → j ≡ id → All (Apart (j, d)) cs → lookup id cs ≡ none
absent j id d cs e a = elim (Option-cases (lookup id cs)) [
  | inl none_here ↦ none_here
  | inr (c, found) ↦ absurd ((All-lookup (Apart (j, d)) id c cs a found).0 e)
]

-- A client is kept, as it is, if it was seen within the expiration time or has open files, and removed
-- otherwise.
abbrev pub kept : ℕ → ℕ → Option Client → Option Client
kept now expiration none = none
kept now expiration (some c) = if stays now expiration c then some c else none

lookup_expired :
    (now expiration id : ℕ) (cs : Clients) (pool : Pool)
    → AllApart cs
    → lookup id (remove_expired now expiration cs pool).1 ≡ kept now expiration (lookup id cs)
unfolding lookup remove_expired
lookup_expired now expiration id [] pool a = refl
lookup_expired now expiration id ((j, d) ∷ cs) pool (ad, as') =
    elim (Bool-cases (stays now expiration d)) [
      | inl stay ↦ elim (Bool-cases (j == id)) [
        | inl hit ↦ rw (stay, hit, stay)
        | inr miss ↦ rw (stay, miss) (lookup_expired now expiration id cs pool as')
      ]
      | inr gone ↦ elim (Bool-cases (j == id)) [
        | inl hit ↦
            let key : j ≡ id = ground arith in
            rw (gone, hit, gone)
              (absent j id d _ key (All-remove_expired (Apart (j, d)) now expiration cs _ ad))
        | inr miss ↦ rw (gone, miss) (lookup_expired now expiration id cs _ as')
      ]
    ]

-- Removing expired clients from a valid table keeps each client that was seen within the expiration time
-- or has open files, as it is, removes every other, and adds none.
pub lookup-remove_expired :
    (now expiration id : ℕ) (cs : Clients) (pool : Pool)
    → IsValid cs
    → lookup id (remove_expired now expiration cs pool).1 ≡ kept now expiration (lookup id cs)
lookup-remove_expired now expiration id cs pool v = lookup_expired now expiration id cs pool v.apart
