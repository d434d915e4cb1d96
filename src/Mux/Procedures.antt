-- ===== src/Mux/Procedures.antt =====
-- mux_v4.go: `HandleProc`, `Void` and `Compound`; mux_wrong.go; and one turn of `ServeLinear` of conn.go.
-- `call_data` is the buffer that the arguments came in.
use nfs4go.Common.{
  ℕ, false, List, [], replicate, none, ltb, ◌==◌, if◌then◌else◌, length, Result, ok, err, panic,
  stuck, ◌>>=◌, not_implemented, auth_error,
}
use nfs4go.Bufpool.{Buf, reset, bytes, allocate, fill, commit}
use nfs4go.Bufpool
use nfs4go.Auth.{Creds, authenticate}
use nfs4go.Xdr.Layout.{Fields, Val, ◌▸◌, uint32, text, end}
use nfs4go.Xdr.Codec.{decode_all}
use nfs4go.Msg.Types.{auth, rpc_msg_reply}
use nfs4go.Msg.Status.{minor_vers_mismatch}
use nfs4go.Rpc.{Call, receive_call, send_reply}
use nfs4go.Mux.State.{Request, World, State, Handler, from_buf}
use nfs4go.Mux.Output.{accept_success, write_all, header_fields}
use nfs4go.Mux.Run.{run}

abbrev pub rpc_reply : ℕ
rpc_reply = 1

abbrev pub msg_accepted : ℕ
msg_accepted = 0

abbrev pub msg_denied : ℕ
msg_denied = 1

abbrev pub accept_prog_mismatch : ℕ
accept_prog_mismatch = 2

abbrev pub reject_auth_error : ℕ
reject_auth_error = 1

abbrev pub proc4_void : ℕ
proc4_void = 0

abbrev pub proc4_compound : ℕ
proc4_compound = 1

abbrev pub xid : Call → ℕ
xid call = call.0

abbrev pub vers : Call → ℕ
vers call = call.1.1.1.1.0

abbrev pub proc : Call → ℕ
proc call = call.1.1.1.1.1.0

abbrev pub cred : Call → Val auth
cred call = call.1.1.1.1.1.1.0

abbrev pub verf : Call → Val auth
verf call = call.1.1.1.1.1.1.1.0

-- The header of the reply, the bytes behind it, and what the procedure left of the program's state.
pub record Response (F : Type 0) : Type 0 where
  pub reply : Val rpc_msg_reply
  pub body : Buf
  pub world : World F

abbrev pub reply_header : Call → ℕ → Val rpc_msg_reply
reply_header call stat = (xid call, (rpc_reply, (stat, tt)))

abbrev pub void_fields : Fields
void_fields = auth ▸ uint32 ▸ end

abbrev pub reject_fields : Fields
reject_fields = uint32 ▸ uint32 ▸ end

abbrev pub mismatch_fields : Fields
mismatch_fields = auth ▸ uint32 ▸ uint32 ▸ uint32 ▸ end

abbrev pub compound_fields : Fields
compound_fields = text ▸ uint32 ▸ uint32 ▸ end

module _ {F : Type 0} where
  -- An empty array follows the status, which has no bytes.
  unfoldable pub void : Call → Buf → World F → Result (Response F)
  unfolding write_all
  void call call_data w = do
    out ← write_all void_fields ((0, ([], tt)), (accept_success, tt)) (reset call_data)
    ok (record { reply = reply_header call msg_accepted; body = out; world = w })

  -- `MuxMismatch.HandleProc`: version 4 is the lowest and the highest.
  unfoldable pub program_mismatch : Call → Buf → World F → Result (Response F)
  unfolding write_all
  program_mismatch call call_data w = do
    out ←
        write_all mismatch_fields ((0, ([], tt)), (accept_prog_mismatch, (4, (4, tt))))
          (reset call_data)
    ok (record { reply = reply_header call msg_accepted; body = out; world = w })

  abbrev pub with_pool : World F → Bufpool.Pool → World F
  with_pool w p = record w { pool = p }

  -- `call_data.Discard()`.
  unfoldable pub discard : Buf → World F → World F
  discard call_data w = with_pool w (Bufpool.put call_data w.pool)

module _ {F : Type 0} (file_operation : ℕ → Handler F) where
  unfoldable pub minor_version_mismatch :
      Call → Val auth → List ℕ → Buf → World F → Result (Response F)
  unfolding write_all discard
  minor_version_mismatch call resp tag call_data w = do
    let got = Bufpool.get w.pool
    out ←
        write_all header_fields (resp, (accept_success, (minor_vers_mismatch, (tag, (0, tt)))))
          got.0
    ok (record {
      reply = reply_header call msg_accepted;
      body = out;
      world = discard call_data (with_pool w got.1);
    })

  -- Of the fields that Go leaves out, the session id is an array of zeros.
  abbrev pub start : List ℕ → Buf → World F → State F
  start input out w = record {
    current_handle = none;
    saved_handle = none;
    session_id = replicate 16 0;
    slot = none;
    handed_back = false;
    world = w;
    input = input;
    out = out;
  }

  unfoldable pub run_compound : Call → Request → List ℕ → Buf → World F → Result (Response F)
  unfolding run discard
  run_compound call req input call_data w = do
    let got = Bufpool.get w.pool
    ended ← run file_operation req (start input got.0 (with_pool w got.1))
    ok (record {
      reply = reply_header call msg_accepted;
      body = ended.out;
      world = discard call_data ended.world;
    })

  -- What `DecodeAll` found in front of the operations.
  unfoldable pub accepted : Call → Val auth × Creds → Buf → World F → Result (Response F)
  unfolding run_compound minor_version_mismatch from_buf
  accepted call (resp, creds) call_data w = do
    input ← bytes call_data
    ((tag, (minor_ver, (ops_count, _))), rest) ← from_buf (decode_all compound_fields input)
    if ltb 2 minor_ver
        then minor_version_mismatch call resp tag call_data w
        else run_compound call
            (record {
              auth_resp = resp;
              minor_ver = minor_ver;
              tag = tag;
              ops_count = ops_count;
              creds = creds;
            })
            rest call_data w

  unfoldable pub denied : Call → ℕ → Buf → World F → Result (Response F)
  unfolding write_all
  denied call code call_data w = do
    out ← write_all reject_fields (reject_auth_error, (code, tt)) (reset call_data)
    ok (record { reply = reply_header call msg_denied; body = out; world = w })

  unfoldable pub authenticated :
      Call → Result (Val auth × Creds) → Buf → World F → Result (Response F)
  unfolding accepted denied
  authenticated call (ok found) call_data w = accepted call found call_data w
  authenticated call (err (auth_error code)) call_data w = denied call code call_data w
  authenticated call (err e) call_data w = err e
  authenticated call panic call_data w = panic
  authenticated call stuck call_data w = stuck

  unfoldable pub compound : Call → Buf → World F → Result (Response F)
  unfolding authenticated
  compound call call_data w = authenticated call (authenticate (cred call) (verf call)) call_data w

  unfoldable pub handle_proc : Call → Buf → World F → Result (Response F)
  unfolding void compound
  handle_proc call call_data w =
      if proc call == proc4_void
      then void call call_data w
      else (if proc call == proc4_compound then compound call call_data w else err not_implemented)

  -- The mux of the version of the call.
  unfoldable pub handle : Call → Buf → World F → Result (Response F)
  unfolding handle_proc program_mismatch
  handle call call_data w =
      if vers call == 4 then handle_proc call call_data w else program_mismatch call call_data w

  -- `ReceiveCall` reads into a buffer from the pool.
  abbrev pub received : List ℕ → Buf → Buf
  received args b = commit (length args) (fill args (allocate (length args) b))

  -- One call is received and answered: the bytes that are sent, the bytes that the connection still
  -- has, and the state.
  unfoldable pub serve_once : List ℕ → World F → Result (List ℕ × List ℕ × World F)
  unfolding handle discard
  serve_once conn w = do
    (call, args, rest) ← receive_call conn
    let got = Bufpool.get w.pool
    response ← handle call (received args got.0) (with_pool w got.1)
    body ← bytes response.body
    sent ← send_reply response.reply body
    ok (sent, rest, discard response.body response.world)
