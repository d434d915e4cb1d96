-- ===== src/Clients/Preserve.antt =====
-- Each method of the table keeps what holds of it between two calls.
use nfs4go.Common.{◌∙◌}
use nfs4go.Common.{
  ℕ, ◌≡◌, ◌≢◌, refl, ap, subst, inl, inr, true, not, ◌&&◌, ◌||◌, List, [], ◌∷◌, none, some, arith,
  All, ◌==◌, list_eq, list_eq_refl, if◌then◌else◌, Bool-cases, Option-cases, Result, ok, >>=-eq-ok,
  ok-injective,
}
use nfs4go.Common.Assoc.{lookup, insert}
use nfs4go.Auth.{Creds, creds_equal}
use nfs4go.Clients.Client.{Client, fresh_key, draw}
use nfs4go.Clients.Table.{
  Clients, Added, add, add_new, update_same, confirm, confirm41, get, get_by_name, remove_client,
  find_same, is_previous, in_use_by_other, remove_unconfirmed, stored_as, find_by_name, confirmed41,
  unconfirmed41, confirm_client,
}
use nfs4go.Clients.Invariant.{
  Apart, AllApart, IsValid, SameTag, All-lookup, IsValid-insert_same, IsValid-insert_new,
  IsValid-erase, IsValid-remove_unconfirmed,
}

-- The number found is no key.
pub fresh_key_lem :
    {V : Type 0} (m : List (ℕ × V)) (draws : List ℕ) {k : ℕ} {rest : List ℕ}
    → fresh_key m draws ≡ ok (k, rest)
    → lookup k m ≡ none
unfolding fresh_key
fresh_key_lem m [] e = cc
fresh_key_lem m (d ∷ draws) e = elim (Option-cases (lookup d m)) [
  | inl free ↦ ground (arith, free)
  | inr (v, taken) ↦ fresh_key_lem m draws (rw (taken, fresh_key) at e)
]

-- What `find_same` returns is in the table, where keys are distinct.
pub find_same_head :
    (name : List ℕ) (verifier : ℕ) (cs : Clients) (id : ℕ) (c : Client)
    → AllApart cs
    → find_same name verifier cs ≡ some (id, c)
    → lookup id cs ≡ some c
unfolding find_same lookup
find_same_head name verifier [] id c a e = cc
find_same_head name verifier ((j, d) ∷ cs) id c (ad, as') e =
    elim (Bool-cases (is_previous name d && d.verifier == verifier)) [
      | inl hit ↦ ground (arith, hit)
      | inr miss ↦
          let later : lookup id cs ≡ some c =
            find_same_head name verifier cs id c as' (ground (arith, miss)) in
          elim (Bool-cases (j == id)) [
            | inl clash ↦ absurd ((All-lookup (Apart (j, d)) id c cs ad later).0 (ground arith))
            | inr apart ↦ rw apart later
          ]
    ]

-- Where `find_same` finds nothing, no client that outlives the third loop has this name and verifier,
-- and a number that is no key is not the key of any client.
new-Apart :
    (name : List ℕ) (verifier id : ℕ) (c : Client) (cs : Clients)
    → c.name ≡ name
    → c.verifier ≡ verifier
    → find_same name verifier cs ≡ none
    → lookup id cs ≡ none
    → All (λ x. Apart x (id, c)) (remove_unconfirmed name cs)
unfolding find_same lookup remove_unconfirmed
new-Apart name verifier id c [] en ev e f = tt
new-Apart name verifier id c ((j, d) ∷ cs) en ev e f =
    let later = new-Apart name verifier id c cs en ev (ground arith) (ground arith) in
    elim (Bool-cases (d.confirmed || not (list_eq d.name name))) [
      | inl kept ↦ rw kept ((other_key, other_tag kept), later)
      | inr gone ↦ rw gone later
    ]
  where
    other_key : j ≢ id
    other_key same = ground arith

    other_tag :
        (d.confirmed || not (list_eq d.name name)) ≡ true
        → d.name ≡ c.name
        → d.verifier ≢ c.verifier
    other_tag kept n v = ground (arith, list_eq_refl name, kept, ap (λ t. list_eq t name) (n ∙ en))

add_new-IsValid :
    (now : ℕ) (draws : List ℕ) (client : Client) (cs : Clients) (a : Added)
    → IsValid cs
    → find_same client.name client.verifier cs ≡ none
    → add_new now draws client cs ≡ ok a
    → IsValid a.clients
unfolding add_new
add_new-IsValid now draws client cs a v none_same e =
    let ((id, draws'), p, q) = >>=-eq-ok (fresh_key cs draws) _ e in
    let ((value, draws''), p', q') = >>=-eq-ok (draw draws') _ q in
    subst (λ (x : Added). IsValid x.clients) (ok-injective q')
      (IsValid-insert_new id (stored_as now id value client) (remove_unconfirmed client.name cs)
        refl
        (new-Apart client.name client.verifier id (stored_as now id value client) cs refl refl
          none_same (fresh_key_lem cs draws p))
        (IsValid-remove_unconfirmed client.name cs v))

update_same-IsValid :
    (now : ℕ) (draws : List ℕ) (id : ℕ) (stored : Client) (cs : Clients) (a : Added)
    → IsValid cs
    → lookup id cs ≡ some stored
    → update_same now draws id stored cs ≡ ok a
    → IsValid a.clients
unfolding update_same
update_same-IsValid now draws id stored cs a v found e =
    let ((value, draws'), p, q) = >>=-eq-ok (draw draws) _ e in
    subst (λ (x : Added). IsValid x.clients) (ok-injective q)
      (IsValid-insert_same id stored _ cs found
        (record { same_id = refl; same_name = refl; same_verifier = refl }) v)

pub add-IsValid :
    (now : ℕ) (draws : List ℕ) (client : Client) (cs : Clients) (a : Added)
    → IsValid cs
    → add now draws client cs ≡ ok a
    → IsValid a.clients
unfolding add
add-IsValid now draws client cs a v e =
    elim (Bool-cases (in_use_by_other client.name client.creds cs)) [
      | inl busy ↦ absurd (ground arith)
      | inr free ↦ elim (Option-cases (find_same client.name client.verifier cs)) [
        | inl missing ↦ add_new-IsValid now draws client cs a v missing (ground arith)
        | inr ((id, stored), found) ↦
            update_same-IsValid now draws id stored cs a v
              (find_same_head client.name client.verifier cs id stored v.apart found) (ground arith)
      ]
    ]

-- A successful look at a client, and its replacement.
replaced :
    (id : ℕ) (c d : Client) (cs cs' : Clients)
    → IsValid cs
    → lookup id cs ≡ some c
    → SameTag c d
    → insert id d cs ≡ cs'
    → IsValid cs'
replaced id c d cs cs' v found t e = subst IsValid e (IsValid-insert_same id c d cs found t v)

pub confirm-IsValid :
    (now id value : ℕ) (creds : Creds) (cs cs' : Clients)
    → IsValid cs
    → confirm now id value creds cs ≡ ok cs'
    → IsValid cs'
unfolding confirm
confirm-IsValid now id value creds cs cs' v e = elim (Option-cases (lookup id cs)) [
  | inl missing ↦ absurd (ground arith)
  | inr (c, found) ↦
      replaced id c (confirm_client now c) cs cs' v found
        (record { same_id = refl; same_name = refl; same_verifier = refl }) (ground arith)
]

-- What CREATE_SESSION makes of a client has the tag of the client.
unfoldable pub session_client : ℕ → ℕ → Creds → Client → Result Client
session_client now seq_id creds c =
    if c.confirmed then confirmed41 now seq_id c else unconfirmed41 now seq_id creds c

session_client-tag :
    (now seq_id : ℕ) (creds : Creds) (c d : Client)
    → session_client now seq_id creds c ≡ ok d
    → SameTag c d
unfolding session_client confirmed41 unconfirmed41
session_client-tag now seq_id creds c d e = ground arith

pub confirm41-IsValid :
    (now id seq_id : ℕ) (creds : Creds) (cs cs' : Clients)
    → IsValid cs
    → confirm41 now id seq_id creds cs ≡ ok cs'
    → IsValid cs'
unfolding confirm41 session_client
confirm41-IsValid now id seq_id creds cs cs' v e = elim (Option-cases (lookup id cs)) [
  | inl missing ↦ absurd (ground arith)
  | inr (c, found) ↦
      let (d, p, q) =
        >>=-eq-ok (session_client now seq_id creds c) (λ d. ok (insert id d cs)) (ground arith) in
      replaced id c d cs cs' v found (session_client-tag now seq_id creds c d p) (ok-injective q)
]

pub get-IsValid :
    (now id : ℕ) (cs cs' : Clients) (c : Client)
    → IsValid cs
    → get now id cs ≡ some (c, cs')
    → IsValid cs'
unfolding get
get-IsValid now id cs cs' c v e = elim (Option-cases (lookup id cs)) [
  | inl missing ↦ absurd (ground arith)
  | inr (d, found) ↦
      replaced id d (record d { last_seen = now }) cs cs' v found
        (record { same_id = refl; same_name = refl; same_verifier = refl }) (ground arith)
]

pub remove_client-IsValid :
    (id : ℕ) (cs cs' : Clients) → IsValid cs → remove_client id cs ≡ ok cs' → IsValid cs'
unfolding remove_client
remove_client-IsValid id cs cs' v e = elim (Option-cases (lookup id cs)) [
  | inl missing ↦ absurd (ground arith)
  | inr (d, found) ↦ subst IsValid (ground arith) (IsValid-erase id cs v)
]

found_is_stored :
    (name : List ℕ) (verifier : ℕ) (creds : Creds) (cs : Clients) (id : ℕ) (c : Client)
    → AllApart cs
    → find_by_name name verifier creds cs ≡ some (id, c)
    → lookup id cs ≡ some c
unfolding find_by_name lookup
found_is_stored name verifier creds [] id c a e = cc
found_is_stored name verifier creds ((j, d) ∷ cs) id c (ad, as') e =
    elim (Bool-cases (
      list_eq d.name name
      && (d.verifier == verifier && (creds_equal d.creds creds && d.confirmed)))) [
        | inl hit ↦ ground (arith, hit)
        | inr miss ↦
            let later : lookup id cs ≡ some c =
              found_is_stored name verifier creds cs id c as' (ground (arith, miss)) in
            elim (Bool-cases (j == id)) [
              | inl clash ↦ absurd ((All-lookup (Apart (j, d)) id c cs ad later).0 (ground arith))
              | inr apart ↦ rw apart later
            ]
      ]

pub get_by_name_stored :
    (now : ℕ) (name : List ℕ) (verifier : ℕ) (creds : Creds) (cs cs' : Clients) (id : ℕ)
    → IsValid cs
    → get_by_name now name verifier creds cs ≡ some (id, cs')
    → (c : Client) × (lookup id cs ≡ some c)
      × (find_by_name name verifier creds cs ≡ some (id, c))
      × (insert id (record c { last_seen = now }) cs ≡ cs')
unfolding get_by_name
get_by_name_stored now name verifier creds cs cs' id v e =
    elim (Option-cases (find_by_name name verifier creds cs)) [
      | inl missing ↦ absurd (ground arith)
      | inr ((j, c), found) ↦
          let same : j ≡ id = ground arith in
          let here : find_by_name name verifier creds cs ≡ some (id, c) =
            found ∙ ap (λ i. some (i, c)) same in
          (c, found_is_stored name verifier creds cs id c v.apart here, here, ground arith)
    ]

pub get_by_name-IsValid :
    (now : ℕ) (name : List ℕ) (verifier : ℕ) (creds : Creds) (cs cs' : Clients) (id : ℕ)
    → IsValid cs
    → get_by_name now name verifier creds cs ≡ some (id, cs')
    → IsValid cs'
get_by_name-IsValid now name verifier creds cs cs' id v e =
    let (c, found, _, q) = get_by_name_stored now name verifier creds cs cs' id v e in
    replaced id c (record c { last_seen = now }) cs cs' v found
      (record { same_id = refl; same_name = refl; same_verifier = refl }) q
