-- ===== src/Rpc/Framing.antt =====
-- What a peer sees of the framing in rpc.go.
use nfs4go.Common.{
  ℕ, ◌+◌, ◌-◌, ◌*◌, ◌/◌, ◌%◌, ◌^◌, ◌<◌, ◌≡◌, refl, sym, ap, true, false, List, ◌++◌, length,
  length-append, arith, ltb, ok, panic, ◌>>=◌, ok-injective,
}
use nfs4go.Xdr.Words.{put_uint32}
use nfs4go.Xdr.WordLaws.{read_full-append, get-put_uint32}
use nfs4go.Xdr.Layout.{Val}
use nfs4go.Xdr.Codec.{encode, decode}
use nfs4go.Xdr.RoundTrip.{Fits, decode-encode}
use nfs4go.Xdr.Writes.{encode_round_trip}
use nfs4go.Msg.Types.{rpc_msg_call, rpc_msg_reply}
use nfs4go.Rpc.{Call, msg_type, rpc_call, receive_call, send_reply, receive_rest}

-- A fragment of `n` bytes, marked as the last one.
abbrev pub last_fragment : ℕ → List ℕ → List ℕ
last_fragment n body = put_uint32 (2 ^ 31 + n) ++ body

top_bit_set : (n : ℕ) → n < 2 ^ 31 → (2 ^ 31 + n) / 2 ^ 31 % 2 ≡ 1
top_bit_set n h = omega arith

top_bit_cleared : (n : ℕ) → n < 2 ^ 31 → (2 ^ 31 + n) * 2 % 2 ^ 32 / 2 ≡ n
top_bit_cleared n h = omega arith

header_size : (bs rest : List ℕ) → length (bs ++ rest) - length rest ≡ length bs
header_size bs rest = omega (arith, length-append bs rest)

receive_header :
    (call : Call) (bs rest : List ℕ) (n : ℕ)
    → Fits rpc_msg_call call
    → encode rpc_msg_call call ≡ ok bs
    → msg_type call ≡ rpc_call
    → n < 2 ^ 31
    → receive_call (last_fragment n (bs ++ rest))
      ≡ (receive_rest n (length bs) rest >>= λ p. ok (call, p.0, p.1))
unfolding receive_call
receive_header call bs rest n h e t room = rw (
  get-put_uint32 (2 ^ 31 + n) (bs ++ rest) (omega arith),
  decode-encode rpc_msg_call call bs rest h e,
  top_bit_set n room,
  top_bit_cleared n room,
  header_size bs rest,
  t,
)

-- A call that fits the wire, sent in one fragment of less than 2 ^ 31 bytes with any payload, is
-- received as this call and this payload, and the bytes behind the fragment are left alone.
pub receive_call-last_fragment :
    (call : Call) (bs payload next : List ℕ)
    → Fits rpc_msg_call call
    → encode rpc_msg_call call ≡ ok bs
    → msg_type call ≡ rpc_call
    → length bs + length payload < 2 ^ 31
    → receive_call (last_fragment (length bs + length payload) (bs ++ (payload ++ next)))
      ≡ ok (call, payload, next)
receive_call-last_fragment call bs payload next h e t room =
    rw (receive_header call bs (payload ++ next) (length bs + length payload) h e t room) (
      unfold receive_rest in rw (enough, size, read_full-append (length payload) payload next refl))
  where
    size : length bs + length payload - length bs ≡ length payload
    size = omega arith

    enough : ltb (length bs + length payload) (length bs) ≡ false
    enough = ground arith

-- A fragment that is shorter than the call header which it carries makes the server panic.
pub receive_call_short_panics :
    (call : Call) (bs next : List ℕ) (n : ℕ)
    → Fits rpc_msg_call call
    → encode rpc_msg_call call ≡ ok bs
    → msg_type call ≡ rpc_call
    → length bs < 2 ^ 31
    → n < length bs
    → receive_call (last_fragment n (bs ++ next)) ≡ panic
receive_call_short_panics call bs next n h e t room short =
    rw (receive_header call bs next n h e t (omega arith)) (unfold receive_rest in rw negative)
  where
    negative : ltb n (length bs) ≡ true
    negative = ground arith

reply_size :
    (reply : Val rpc_msg_reply) (bs : List ℕ) → encode rpc_msg_reply reply ≡ ok bs → length bs ≡ 12
unfolding encode put_uint32
reply_size (xid, (kind, (stat, end))) bs e = sym (ap length (ok-injective e))

-- A reply that fits the wire is sent as one last fragment, whose mark counts exactly the bytes that
-- follow it, if these are fewer than 2 ^ 31; they decode to the reply and the payload.
pub send_reply-last_fragment :
    (reply : Val rpc_msg_reply) (payload : List ℕ)
    → Fits rpc_msg_reply reply
    → 12 + length payload < 2 ^ 31
    → (body : List ℕ) × (send_reply reply payload ≡ ok (last_fragment (length body) body))
      × (decode rpc_msg_reply body ≡ ok (reply, payload))
unfolding send_reply
send_reply-last_fragment reply payload h room =
    let (bs, e, aligned, back) = encode_round_trip rpc_msg_reply reply h in
    (
      bs ++ payload,
      rw e (ap ok (ap (λ n. put_uint32 n ++ (bs ++ payload)) (mark bs e))),
      back payload,
    )
  where
    mark :
        (bs : List ℕ)
        → encode rpc_msg_reply reply ≡ ok bs
        → (12 + length payload) % 2 ^ 31 + 2 ^ 31 ≡ 2 ^ 31 + length (bs ++ payload)
    mark bs e = omega (arith, reply_size reply bs e, length-append bs payload)
