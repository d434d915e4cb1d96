-- ===== src/Mux/State.antt =====
-- mux_v4.go: what a running compound knows. `Request` is the part of `Compound` that does not change
-- while it runs; `State` has the rest, the tables that it shares, the bytes of the call that are still
-- to be read, and the buffer of the reply. `F` is the state of the files, which the operations here
-- do not look at.
use nfs4go.Common.{
  ℕ, Bool, List, [], ◌∷◌, Option, Result, ok, err, panic, stuck, eof, unexpected_eof, ◌>>=◌,
}
use nfs4go.Auth.{Creds}
use nfs4go.Bufpool.{Buf, Pool}
use nfs4go.Clients.Client.{Slot}
use nfs4go.Clients.Table.{Clients}
use nfs4go.Xdr.Layout.{Layout, Val}
use nfs4go.Xdr.Codec.{decode}
use nfs4go.Msg.Types.{auth}

pub record FileHandle : Type 0 where
  pub handle : List ℕ
  pub path : List ℕ

pub record Request : Type 0 where
  pub auth_resp : Val auth
  pub minor_ver : ℕ
  pub tag : List ℕ
  pub ops_count : ℕ
  pub creds : Creds

-- `clock` lists what the clock will show, one entry for each look at it, and `draws` what the random
-- numbers will be.
pub record World (F : Type 0) : Type 0 where
  pub clients : Clients
  pub pool : Pool
  pub clock : List ℕ
  pub draws : List ℕ
  pub files : F

-- `slot` shows the slot as SEQUENCE left it. `handed_back` is not a field of `Compound`: it says that the
-- compound destroyed its own session, whose buffers are in the pool again.
pub record State (F : Type 0) : Type 0 where
  pub current_handle : Option FileHandle
  pub saved_handle : Option FileHandle
  pub session_id : List ℕ
  pub slot : Option Slot
  pub handed_back : Bool
  pub world : World F
  pub input : List ℕ
  pub out : Buf

-- An operation gives its status.
abbrev pub Handler : Type 0 → Type 0
Handler F = State F → Result (ℕ × State F)

-- `Buf.Read` reports no end of file, so that `io.ReadFull` asks an exhausted buffer for ever.
unfoldable pub from_buf : {A : Type 0} → Result A → Result A
from_buf (ok a) = ok a
from_buf (err eof) = stuck
from_buf (err unexpected_eof) = stuck
from_buf (err e) = err e
from_buf panic = panic
from_buf stuck = stuck

-- `xdr.NewDecoder(in).Decode(&args)`.
unfoldable pub read_args : {F : Type 0} (l : Layout) → State F → Result (Val l × State F)
unfolding from_buf
read_args l st = do
  (args, rest) ← from_buf (decode l st.input)
  ok (args, record st { input = rest })

module _ {F : Type 0} where
  -- `clock.Now()`.
  unfoldable pub look_at_clock : World F → Result (ℕ × World F)
  look_at_clock w = elim w.clock [ [] ↦ stuck | now ∷ later ↦ ok (now, record w { clock = later }) ]

  abbrev pub with_world : State F → World F → State F
  with_world st w = record st { world = w }

  abbrev pub with_clients : World F → Clients → World F
  with_clients w cs = record w { clients = cs }
