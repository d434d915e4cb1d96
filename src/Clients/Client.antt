-- ===== src/Clients/Client.antt =====
-- clients/client.go: a client with its sessions and their slots.
use nfs4go.Common.{
  ℕ, zero, suc, ◌+◌, Bool, true, false, List, [], ◌∷◌, ◌++◌, Option, none, some, length, take, drop,
  get_elem?, leb, if◌then◌else◌, Result, ok, stuck, ◌>>=◌,
}
use nfs4go.Common.Assoc.{lookup, insert, erase}
use nfs4go.Common.Int.{ℤ, pos, ◌+ℤ◌, ◌-ℤ◌}
use nfs4go.Xdr.Words.{put_uint64, big_endian}
use nfs4go.Bufpool.{Buf, Pool}
use nfs4go.Bufpool
use nfs4go.Auth.{Creds}

-- `buf` is nil in a session that does not persist.
pub record Slot : Type 0 where
  pub slot_id : ℕ
  pub sequence_id : ℕ
  pub contains_data : Bool
  pub buf : Option Buf

pub record Client : Type 0 where
  pub name : List ℕ
  pub verifier : ℕ
  pub creds : Creds
  pub client_id : ℕ
  pub last_seen : ℕ
  pub confirmed : Bool
  pub confirm_value : ℕ
  pub seq_id : ℕ
  pub busy : ℤ
  pub sessions : List (ℕ × List Slot)

-- The highest slot id of a session.
abbrev pub max_slot_id : ℕ
max_slot_id = 15

-- `randUint64` in a loop, until the number is no key of the map. With no draw left the loop has not
-- ended.
unfoldable pub fresh_key : {V : Type 0} → List (ℕ × V) → List ℕ → Result (ℕ × List ℕ)
fresh_key m [] = stuck
fresh_key m (d ∷ draws) =
    let again = fresh_key m draws in elim (lookup d m) [ none ↦ ok (d, draws) | some v ↦ again ]

-- A single `randUint64`.
unfoldable pub draw : List ℕ → Result (ℕ × List ℕ)
draw [] = stuck
draw (d ∷ draws) = ok (d, draws)

unfoldable pub add_busy : ℤ → Client → Client
add_busy n c = record c { busy = c.busy +ℤ n }

unfoldable pub done : Client → Client
done c = record c { busy = c.busy -ℤ pos 1 }

abbrev pub new_slot : ℕ → Option Buf → Slot
new_slot i b = record { slot_id = i; sequence_id = 0; contains_data = false; buf = b }

-- The slots from `i` on, `n` of them; each takes a buffer if the session persists.
unfoldable pub new_slots : Bool → ℕ → ℕ → Pool → List Slot × Pool
new_slots persist i zero pool = ([], pool)
new_slots false i (suc n) pool =
    let (slots, pool') = new_slots false (i + 1) n pool in (new_slot i none ∷ slots, pool')
new_slots true i (suc n) pool =
    let (b, pool') = Bufpool.get pool in
    let (slots, pool'') = new_slots true (i + 1) n pool' in (new_slot i (some b) ∷ slots, pool'')

-- The session id is the client id followed by the key of the session.
unfoldable pub build_session :
    Bool → List ℕ → Pool → Client → Result (List ℕ × List ℕ × Pool × Client)
unfolding new_slots fresh_key
build_session persist draws pool c = do
  (cache_id, draws') ← fresh_key c.sessions draws
  let built = new_slots persist 0 (suc max_slot_id) pool
  ok (
    put_uint64 c.client_id ++ put_uint64 cache_id,
    draws',
    built.1,
    record c { sessions = insert cache_id built.0 c.sessions },
  )

unfoldable pub client_id_from_session_id : List ℕ → ℕ
client_id_from_session_id session_id = big_endian 0 (take 8 session_id)

unfoldable pub cache_id_from_session_id : List ℕ → ℕ
cache_id_from_session_id session_id = big_endian 0 (drop 8 session_id)

unfoldable pub slot_of : Option (List Slot) → ℕ → Option Slot
slot_of none i = none
slot_of (some slots) i = if leb (length slots) i then none else get_elem? slots i

unfoldable pub get_slot : List ℕ → ℕ → Client → Option Slot
unfolding slot_of cache_id_from_session_id
get_slot session_id slot_id c =
    slot_of (lookup (cache_id_from_session_id session_id) c.sessions) slot_id

unfoldable pub put_slots : List Slot → Pool → Pool
put_slots [] pool = pool
put_slots (s ∷ slots) pool =
    put_slots slots (elim s.buf [ none ↦ pool | some b ↦ Bufpool.put b pool ])

unfoldable pub remove_session : List ℕ → Pool → Client → Pool × Client
unfolding put_slots cache_id_from_session_id
remove_session session_id pool c =
    let key = cache_id_from_session_id session_id in
    elim (lookup key c.sessions) [
      | none ↦ (pool, c)
      | some slots ↦ (put_slots slots pool, record c { sessions = erase key c.sessions })
    ]
