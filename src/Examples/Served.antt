-- ===== src/Examples/Served.antt =====
-- Calls at which the theorems on the procedures of mux_v4.go are applied.
use nfs4go.Common.{ℕ, ◌≡◌, refl, List, [], ◌∷◌, ◌++◌, ok}
use nfs4go.Auth.{authenticate, decode_creds}
use nfs4go.Bufpool.{
  Buf, write, bytes, slice_of, make_room, grow, copy_at, reset, put, get, get_from,
}
use nfs4go.Xdr.Words.{
  get_bytes, get_times, read_full, pad, get_uint32, big_endian, put_uint32, put_bytes,
}
use nfs4go.Xdr.Codec.{decode, decode_all, encode_all}
use nfs4go.Rpc.{Call}
use nfs4go.Mux.State.{World, from_buf, read_args}
use nfs4go.Mux.Output.{
  answer, operation_response, write_header, write_all, rewrite_header_if_needed,
}
use nfs4go.Mux.Handles.{get_fh, get_handle}
use nfs4go.Mux.Dispatch.{contains, do_operation, other_operation}
use nfs4go.Mux.Run.{run, first_operation, run_after, run_ops}
use nfs4go.Mux.Procedures.{
  Response, msg_accepted, msg_denied, compound, authenticated, accepted, run_compound, discard,
  handle,
}
use nfs4go.Mux.Served.{
  IsClean, Answer, Settles, mismatch_bytes, compound-Answer, handle-mismatch, handle-tooweak,
}
use nfs4go.Examples.Compounds.{succeed, succeed-Answers, empty_buf, empty_buf-IsFresh}

-- AUTH_UNIX of user 1000.
abbrev unix_body : List ℕ
unix_body = 0 ∷ 0 ∷ 0 ∷ 0 ∷ 0 ∷ 0 ∷ 0 ∷ 0 ∷ 0 ∷ 0 ∷ 3 ∷ 232 ∷ 0 ∷ 0 ∷ 0 ∷ 100 ∷ 0 ∷ 0 ∷ 0 ∷ 0 ∷ []

abbrev getfh_call : Call
getfh_call = (7, (0, (2, (100003, (4, (1, ((1, (unix_body, tt)), ((0, ([], tt)), tt))))))))

-- No tag, minor version 0, one operation, GETFH.
abbrev getfh_args : Buf
getfh_args = record {
  buf = 0 ∷ 0 ∷ 0 ∷ 0 ∷ 0 ∷ 0 ∷ 0 ∷ 0 ∷ 0 ∷ 0 ∷ 0 ∷ 1 ∷ 0 ∷ 0 ∷ 0 ∷ 10 ∷ [];
  r = 0;
  w = 16;
}

abbrev quiet : World (Unit {0})
quiet = record {
  clients = [];
  pool = record { bufs = empty_buf ∷ [] };
  clock = [];
  draws = [];
  files = tt;
}

quiet-IsClean : IsClean empty_buf × Unit {0}
quiet-IsClean = (record { fresh = empty_buf-IsFresh; empty = refl }, tt)

getfh_run : (r : Response (Unit {0})) × (compound succeed getfh_call getfh_args quiet ≡ ok r)
unfolding compound authenticated authenticate decode_creds accepted run_compound discard from_buf
    run first_operation read_args decode decode_all get_bytes get_times read_full pad get_uint32
    big_endian contains do_operation other_operation get_fh get_handle run_after run_ops
    write_header write_all encode_all answer operation_response rewrite_header_if_needed bytes
    slice_of write make_room grow copy_at reset put get get_from put_uint32 put_bytes
getfh_run = (_, refl)

compound-Answer_example : Answer succeed getfh_call getfh_args quiet getfh_run.0
compound-Answer_example =
    compound-Answer succeed succeed-Answers getfh_call getfh_args quiet getfh_run.0 quiet-IsClean
      getfh_run.1

-- The same call, of version 3.
abbrev old_call : Call
old_call = (7, (0, (2, (100003, (3, (1, ((1, (unix_body, tt)), ((0, ([], tt)), tt))))))))

handle-mismatch_example :
    (r : Response (Unit {0})) × (handle succeed old_call getfh_args quiet ≡ ok r)
    × Settles msg_accepted mismatch_bytes old_call quiet r
handle-mismatch_example = handle-mismatch succeed old_call getfh_args quiet refl

-- The same call, without credentials.
abbrev anonymous_call : Call
anonymous_call = (7, (0, (2, (100003, (4, (1, ((0, ([], tt)), ((0, ([], tt)), tt))))))))

handle-tooweak_example :
    (r : Response (Unit {0})) × (handle succeed anonymous_call getfh_args quiet ≡ ok r)
    × Settles msg_denied (put_uint32 1 ++ (put_uint32 5 ++ [])) anonymous_call quiet r
handle-tooweak_example = handle-tooweak succeed anonymous_call getfh_args quiet refl refl refl
