-- ===== src/Clients/Table.antt =====
-- clients/clients.go: the methods of the table. The list is in the order in which `range` visits it.
use nfs4go.Common.{
  ℕ, ◌+◌, ◌%◌, ◌^◌, Bool, true, false, not, ◌&&◌, ◌||◌, List, [], ◌∷◌, Option, none, some, ltb, leb,
  ◌==◌, list_eq, if◌then◌else◌, Result, ok, err, nfs_error, ◌>>=◌,
}
use nfs4go.Common.Assoc.{lookup, insert, erase}
use nfs4go.Common.Int.{is_pos}
use nfs4go.Auth.{Creds, creds_equal}
use nfs4go.Bufpool.{Pool}
use nfs4go.Clients.Client.{Client, Slot, draw, fresh_key, put_slots}
use nfs4go.Msg.Status.{stale_clientid, clid_inuse, seq_misordered, clientid_busy}

abbrev pub Clients : Type 0
Clients = List (ℕ × Client)

-- A confirmed client of the same name.
abbrev pub is_previous : List ℕ → Client → Bool
is_previous name stored = stored.confirmed && list_eq stored.name name

-- The first loop of `Add`: whether a confirmed client of this name has other credentials.
unfoldable pub in_use_by_other : List ℕ → Creds → Clients → Bool
in_use_by_other name creds [] = false
in_use_by_other name creds ((id, stored) ∷ cs) =
    (is_previous name stored && not (creds_equal stored.creds creds))
    || in_use_by_other name creds cs

-- The second loop of `Add`: the first of those clients that has the same verifier.
unfoldable pub find_same : List ℕ → ℕ → Clients → Option (ℕ × Client)
find_same name verifier [] = none
find_same name verifier ((id, stored) ∷ cs) =
    if is_previous name stored && stored.verifier == verifier
    then some (id, stored)
    else find_same name verifier cs

-- The third loop of `Add`: unconfirmed clients of this name are deleted.
unfoldable pub remove_unconfirmed : List ℕ → Clients → Clients
remove_unconfirmed name [] = []
remove_unconfirmed name ((id, stored) ∷ cs) =
    let rest = remove_unconfirmed name cs in
    if stored.confirmed || not (list_eq stored.name name) then (id, stored) ∷ rest else rest

pub record Added : Type 0 where
  pub id : ℕ
  pub confirm_value : ℕ
  pub seq_id : ℕ
  pub clients : Clients
  pub draws : List ℕ

unfoldable pub update_same : ℕ → List ℕ → ℕ → Client → Clients → Result Added
update_same now draws id stored cs = do
  (value, draws') ← draw draws
  let stored' = record stored {
    confirm_value = value;
    seq_id = (stored.seq_id + 1) % 2 ^ 32;
    last_seen = now;
  }
  ok (record {
    id = id;
    confirm_value = value;
    seq_id = stored'.seq_id;
    clients = insert id stored' cs;
    draws = draws';
  })

-- The stored client: what the caller gave, with the fields that `Add` sets.
abbrev pub stored_as : ℕ → ℕ → ℕ → Client → Client
stored_as now id value client = record client {
  client_id = id;
  confirm_value = value;
  seq_id = 1;
  last_seen = now;
}

unfoldable pub add_new : ℕ → List ℕ → Client → Clients → Result Added
add_new now draws client cs = do
  (id, draws') ← fresh_key cs draws
  (value, draws'') ← draw draws'
  ok (record {
    id = id;
    confirm_value = value;
    seq_id = 1;
    clients = insert id (stored_as now id value client) (remove_unconfirmed client.name cs);
    draws = draws'';
  })

unfoldable pub add : ℕ → List ℕ → Client → Clients → Result Added
add now draws client cs =
    if in_use_by_other client.name client.creds cs
    then err (nfs_error clid_inuse)
    else elim (find_same client.name client.verifier cs) [
      | some (id, stored) ↦ update_same now draws id stored cs
      | none ↦ add_new now draws client cs
    ]

abbrev pub confirm_client : ℕ → Client → Client
confirm_client now c = record c { confirmed = true; last_seen = now }

unfoldable pub confirm_found : ℕ → ℕ → ℕ → Creds → Clients → Option Client → Result Clients
confirm_found now id value creds cs none = err (nfs_error stale_clientid)
confirm_found now id value creds cs (some c) =
    if not (c.confirm_value == value)
    then err (nfs_error stale_clientid)
    else (if not (creds_equal c.creds creds)
        then err (nfs_error clid_inuse)
        else ok (insert id (confirm_client now c) cs))

unfoldable pub confirm : ℕ → ℕ → ℕ → Creds → Clients → Result Clients
unfolding confirm_found
confirm now id value creds cs = confirm_found now id value creds cs (lookup id cs)

-- A new session of a confirmed client, by the number of CREATE_SESSION.
unfoldable pub confirmed41 : ℕ → ℕ → Client → Result Client
confirmed41 now seq_id c =
    if seq_id == 0 && not (c.seq_id == 0)
    then ok (record c { last_seen = now; seq_id = 0 })
    else (if ltb seq_id c.seq_id
        then err (nfs_error seq_misordered)
        else (if c.seq_id == seq_id
            then ok c
            else ok (record c { last_seen = now; seq_id = seq_id })))

unfoldable pub unconfirmed41 : ℕ → ℕ → Creds → Client → Result Client
unconfirmed41 now seq_id creds c =
    if not (c.seq_id == seq_id)
    then err (nfs_error stale_clientid)
    else (if not (creds_equal c.creds creds)
        then err (nfs_error clid_inuse)
        else ok (confirm_client now c))

unfoldable pub confirm41_found : ℕ → ℕ → ℕ → Creds → Clients → Option Client → Result Clients
unfolding confirmed41 unconfirmed41
confirm41_found now id seq_id creds cs none = err (nfs_error stale_clientid)
confirm41_found now id seq_id creds cs (some c) = do
  c' ← (if c.confirmed then confirmed41 now seq_id c else unconfirmed41 now seq_id creds c)
  ok (insert id c' cs)

unfoldable pub confirm41 : ℕ → ℕ → ℕ → Creds → Clients → Result Clients
unfolding confirm41_found
confirm41 now id seq_id creds cs = confirm41_found now id seq_id creds cs (lookup id cs)

-- `Get`: a confirmed client, which is seen now.
unfoldable pub get_found : ℕ → ℕ → Clients → Option Client → Option (Client × Clients)
get_found now id cs none = none
get_found now id cs (some c) =
    let c' = record c { last_seen = now } in
    if c.confirmed then some (c', insert id c' cs) else none

unfoldable pub get : ℕ → ℕ → Clients → Option (Client × Clients)
unfolding get_found
get now id cs = get_found now id cs (lookup id cs)

-- `GetByName`: the loop takes the first client that it does not skip, which is seen now.
unfoldable pub find_by_name : List ℕ → ℕ → Creds → Clients → Option (ℕ × Client)
find_by_name name verifier creds [] = none
find_by_name name verifier creds ((id, c) ∷ cs) =
    if list_eq c.name name && (c.verifier == verifier && (creds_equal c.creds creds && c.confirmed))
    then some (id, c)
    else find_by_name name verifier creds cs

unfoldable pub get_by_name : ℕ → List ℕ → ℕ → Creds → Clients → Option (ℕ × Clients)
unfolding find_by_name
get_by_name now name verifier creds cs = elim (find_by_name name verifier creds cs) [
  | none ↦ none
  | some (id, c) ↦ some (id, insert id (record c { last_seen = now }) cs)
]

unfoldable pub remove_found : ℕ → Clients → Option Client → Result Clients
remove_found id cs none = err (nfs_error stale_clientid)
remove_found id cs (some c) =
    if not c.confirmed
    then err (nfs_error stale_clientid)
    else (if is_pos c.busy then err (nfs_error clientid_busy) else ok (erase id cs))

unfoldable pub remove_client : ℕ → Clients → Result Clients
unfolding remove_found
remove_client id cs = remove_found id cs (lookup id cs)

-- `now.Sub(lastSeen) <= expiration || busy > 0`: the client stays.
abbrev pub stays : ℕ → ℕ → Client → Bool
stays now expiration c = leb now (c.last_seen + expiration) || is_pos c.busy

unfoldable pub put_sessions : List (ℕ × List Slot) → Pool → Pool
unfolding put_slots
put_sessions [] pool = pool
put_sessions ((key, slots) ∷ rest) pool = put_sessions rest (put_slots slots pool)

-- The ids that were removed, the table, and the pool, which has the buffers of the removed sessions.
unfoldable pub remove_expired : ℕ → ℕ → Clients → Pool → List ℕ × Clients × Pool
unfolding put_sessions
remove_expired now expiration [] pool = ([], [], pool)
remove_expired now expiration ((id, c) ∷ cs) pool =
    let (ids, rest, pool') =
      remove_expired now expiration cs
        (if stays now expiration c then pool else put_sessions c.sessions pool) in
    if stays now expiration c then (ids, (id, c) ∷ rest, pool') else (id ∷ ids, rest, pool')
