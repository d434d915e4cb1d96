-- ===== src/Examples/Codec.antt =====
-- Inputs of xdr/, rpc.go and auth/ at which their theorems are applied.
use nfs4go.Common.{
  ℕ, ◌+◌, ◌%◌, ◌≡◌, refl, ◌⊎◌, true, List, [], ◌∷◌, ◌++◌, length, arith, ok, panic, list_eq,
}
use nfs4go.Xdr.Words.{put_uint32, put_each, put_bool, put_uint64, put_bytes, pad}
use nfs4go.Xdr.Layout.{Val, uint32, text, ◌▸◌, end, put_chain, put_counted}
use nfs4go.Xdr.Codec.{encode, decode, decode_all, unmarshal}
use nfs4go.Xdr.RoundTrip.{Fits}
use nfs4go.Xdr.Total.{unmarshal-decode_all}
use nfs4go.Xdr.Writes.{encode_round_trip}
use nfs4go.Msg.Types.{dir_list4, rpc_msg_call, rpc_msg_reply}
use nfs4go.Rpc.{receive_call, send_reply, Call}
use nfs4go.Rpc.Framing.{
  last_fragment, receive_call-last_fragment, receive_call_short_panics, send_reply-last_fragment,
}
use nfs4go.Auth.{Creds, creds_equal}
use nfs4go.Auth.Groups.{contains, compact, sort}
use nfs4go.Auth.Equality.{creds_equal_refl_sym, creds_equal_sound, all_gids}

-- A directory with one entry: cookie 3, the name "ab", and one attribute.
abbrev entries : Val dir_list4
entries = ((3, (97 ∷ 98 ∷ [], ((2 ∷ [], (0 ∷ 0 ∷ 0 ∷ 1 ∷ [], tt)), tt))) ∷ [], (true, tt))

encode_round_trip_example :
    (bs : List ℕ) × (encode dir_list4 entries ≡ ok bs)
    × (length bs % 4 ≡ 0)
    × ((rest : List ℕ) → decode dir_list4 (bs ++ rest) ≡ ok (entries, rest))
encode_round_trip_example = encode_round_trip dir_list4 entries (omega arith)

encode-entries :
    encode dir_list4 entries
    ≡ ok (
        put_uint32 1
        ++ (put_uint32 0 ++ put_uint32 3)
        ++ (put_uint32 2 ++ 97 ∷ 98 ∷ 0 ∷ 0 ∷ [])
        ++ (put_uint32 1 ++ put_uint32 2)
        ++ (put_uint32 4 ++ 0 ∷ 0 ∷ 0 ∷ 1 ∷ [])
        ++ put_uint32 0
        ++ put_uint32 1)
unfolding encode put_uint32 put_chain put_counted put_each put_bool put_uint64 put_bytes pad
encode-entries = refl

-- Three bytes of four.
abbrev cut_off : List ℕ
cut_off = 0 ∷ 0 ∷ 0 ∷ []

unmarshal-decode_all_example :
    unmarshal (uint32 ▸ text ▸ end) cut_off ≡ decode_all (uint32 ▸ text ▸ end) cut_off
unmarshal-decode_all_example = unmarshal-decode_all (uint32 ▸ text ▸ end) cut_off

-- A call of procedure 0 of NFS version 4, with no credentials.
abbrev null_call : Call
null_call = (9, (0, (2, (100003, (4, (0, ((0, ([], tt)), ((0, ([], tt)), tt))))))))

abbrev null_call_bytes : List ℕ
null_call_bytes =
    put_uint32 9
    ++ (put_uint32 0
        ++ (put_uint32 2
            ++ (put_uint32 100003
                ++ (put_uint32 4
                    ++ (put_uint32 0
                        ++ ((put_uint32 0 ++ (put_uint32 0 ++ []))
                            ++ ((put_uint32 0 ++ (put_uint32 0 ++ [])) ++ [])))))))

null_call-Fits : Fits rpc_msg_call null_call
null_call-Fits = omega arith

encode-null_call : encode rpc_msg_call null_call ≡ ok null_call_bytes
unfolding encode put_uint32 put_bytes pad
encode-null_call = refl

length_null_call : length null_call_bytes ≡ 40
unfolding put_uint32
length_null_call = refl

receive_call-last_fragment_example :
    receive_call
      (last_fragment (length null_call_bytes + 2) (null_call_bytes ++ (1 ∷ 2 ∷ [] ++ 7 ∷ [])))
    ≡ ok (null_call, 1 ∷ 2 ∷ [], 7 ∷ [])
receive_call-last_fragment_example =
    receive_call-last_fragment null_call null_call_bytes (1 ∷ 2 ∷ []) (7 ∷ []) null_call-Fits
      encode-null_call refl (omega (arith, length_null_call))

receive_call_short_panics_example :
    receive_call (last_fragment 8 (null_call_bytes ++ 7 ∷ [])) ≡ panic
receive_call_short_panics_example =
    receive_call_short_panics null_call null_call_bytes (7 ∷ []) 8 null_call-Fits encode-null_call
      refl (omega (arith, length_null_call)) (omega (arith, length_null_call))

-- The reply to it.
abbrev null_reply : Val rpc_msg_reply
null_reply = (9, (1, (0, tt)))

send_reply-last_fragment_example :
    (body : List ℕ) × (send_reply null_reply (1 ∷ 2 ∷ []) ≡ ok (last_fragment (length body) body))
    × (decode rpc_msg_reply body ≡ ok (null_reply, 1 ∷ 2 ∷ []))
send_reply-last_fragment_example =
    send_reply-last_fragment null_reply (1 ∷ 2 ∷ []) (omega arith) (omega arith)

-- The same groups, with another primary group.
abbrev pub alice : Creds
alice = record {
  expiration_value = 0;
  hostname = [];
  uid = 1000;
  gid = 100;
  additional_groups = 5 ∷ 7 ∷ [];
}

abbrev alice_elsewhere : Creds
alice_elsewhere = record alice { gid = 7; additional_groups = 100 ∷ 5 ∷ [] }

alice_equal : creds_equal alice alice_elsewhere ≡ true
unfolding creds_equal list_eq compact sort
alice_equal = refl

creds_equal_refl_sym_example :
    (creds_equal alice alice ≡ true)
    × (creds_equal alice alice_elsewhere ≡ creds_equal alice_elsewhere alice)
creds_equal_refl_sym_example = creds_equal_refl_sym alice alice_elsewhere

creds_equal_sound_example :
    (alice.uid ≡ alice_elsewhere.uid)
    × ((alice.additional_groups ≡ alice_elsewhere.additional_groups)
        ⊎ ((g : ℕ) → contains g (all_gids alice) ≡ contains g (all_gids alice_elsewhere)))
creds_equal_sound_example = creds_equal_sound alice alice_elsewhere alice_equal
