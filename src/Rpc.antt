-- ===== src/Rpc.antt =====
-- rpc.go: the record marks around a call and a reply. The connection is the list of bytes that are
-- still to be read, or that were written.
pub mod Framing
use nfs4go.Common.{
  ℕ, ◌+◌, ◌-◌, ◌*◌, ◌/◌, ◌%◌, ◌^◌, Bool, List, ◌++◌, length, ltb, ◌==◌, if◌then◌else◌, Result, ok,
  err, panic, stuck, Error, fragmented, not_a_call, bad_header, ◌>>=◌,
}
use nfs4go.Xdr.Words.{read_full, get_uint32, put_uint32}
use nfs4go.Xdr.Layout.{Val}
use nfs4go.Xdr.Codec.{encode, decode}
use nfs4go.Msg.Types.{rpc_msg_call, rpc_msg_reply}

-- `RPC_CALL`.
abbrev pub rpc_call : ℕ
rpc_call = 0

abbrev pub Call : Type 0
Call = Val rpc_msg_call

abbrev pub msg_type : Call → ℕ
msg_type call = call.1.0

-- The error of the header is wrapped by its text, so that it is no EOF any more.
wrap {ℓ} : {A : Type ℓ} → Result A → Result A
wrap (ok a) = ok a
wrap (err e) = err bad_header
wrap panic = panic
wrap stuck = stuck

-- `buf.Allocate(restSize)` and `io.ReadFull`: a negative size, here a header larger than the fragment,
-- is a slice out of bounds.
receive_rest : (header_size size : ℕ) → List ℕ → Result (List ℕ × List ℕ)
receive_rest header_size size bs =
    if ltb header_size size then panic else read_full (header_size - size) bs

-- `(frag << 1) >> 1` clears the top bit of 32. What is returned is the header, the data, and what the
-- connection holds behind them.
unfoldable pub receive_call : List ℕ → Result (Call × List ℕ × List ℕ)
unfolding wrap receive_rest
receive_call bs = do
  (frag, rest) ← get_uint32 bs
  if frag / 2 ^ 31 % 2 == 0 then err fragmented else (do
    (call, rest') ← wrap (decode rpc_msg_call rest)
    if msg_type call == rpc_call
        then (do
          (payload, rest'') ←
              receive_rest (frag * 2 % 2 ^ 32 / 2) (length rest - length rest') rest'
          ok (call, payload, rest''))
        else err not_a_call)

-- `uint32(length) | uint32(1<<31)`.
with_top_bit : ℕ → ℕ
with_top_bit n = n % 2 ^ 31 + 2 ^ 31

unfoldable pub send_reply : Val rpc_msg_reply → List ℕ → Result (List ℕ)
unfolding with_top_bit
send_reply reply payload = do
  bs ← encode rpc_msg_reply reply
  ok (put_uint32 (with_top_bit (12 + length payload)) ++ (bs ++ payload))
