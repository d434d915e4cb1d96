-- ===== src/Mux/Served.antt =====
-- mux_v4.go and mux_wrong.go: the reply to a call.
use nfs4go.Common.{
  ℕ, ◌≡◌, refl, sym, ◌∙◌, subst, Bool, true, false, Bool-cases, inl, inr, List, [], ◌∷◌, ◌++◌, All,
  ltb, ◌==◌, if◌then◌else◌, Result, ok, err, panic, stuck, auth_error, arith,
}
use nfs4go.Bufpool.{Buf, Pool, reset, bytes, write, new_buf, get_from}
use nfs4go.Bufpool
use nfs4go.Bufpool.Contents.{contents, reset_lem}
use nfs4go.Auth.{Creds, authenticate}
use nfs4go.Xdr.Words.{put_uint32, put_bytes}
use nfs4go.Xdr.Layout.{Val}
use nfs4go.Xdr.Codec.{encode_all, decode_all}
use nfs4go.Msg.Types.{auth}
use nfs4go.Msg.Status.{minor_vers_mismatch}
use nfs4go.Rpc.{Call}
use nfs4go.Mux.State.{Request, World, State, Handler, from_buf}
use nfs4go.Mux.Output.{write_all}
use nfs4go.Mux.Run.{run}
use nfs4go.Mux.Procedures.{
  Response, reply_header, msg_accepted, msg_denied, program_mismatch, minor_version_mismatch,
  run_compound, discard, accepted, denied, authenticated, compound, handle_proc, handle, start,
  with_pool, vers, proc, cred, verf, compound_fields,
}
use nfs4go.Mux.Appends.{IsFresh, write-Appends, header_bytes}
use nfs4go.Mux.Answers.{Answers}
use nfs4go.Mux.Complete.{OnOk, bind-OnOk}
use nfs4go.Mux.Outcome.{Outcome}
use nfs4go.Mux.Compounds.{run-Outcome}

-- A buffer that the pool may hand out.
pub record IsClean (b : Buf) : Type 0 where
  pub fresh : IsFresh b
  pub empty : contents b ≡ []

get_from-IsClean : (bs : List Buf) → All IsClean bs → IsClean (get_from bs).0
unfolding get_from
get_from-IsClean [] h = record {
  fresh = record { valid = record { ordered = omega arith; within = omega arith }; unread = refl };
  empty = refl;
}
get_from-IsClean (b ∷ bs) h = h.0

pub get-IsClean : (p : Pool) → All IsClean p.bufs → IsClean (Bufpool.get p).0
unfolding Bufpool.get
get-IsClean p h = get_from-IsClean p.bufs h

pub reset-IsClean : (b : Buf) → IsClean (reset b)
unfolding reset
reset-IsClean b = record {
  fresh = record { valid = (reset_lem b).0; unread = refl };
  empty = (reset_lem b).1;
}

-- What is written to a clean buffer is all that it has.
write_clean : (p : List ℕ) (b : Buf) → IsClean b → contents (write p b) ≡ p
write_clean p b h = (write-Appends p b h.fresh).appended ∙ rw h.empty

-- The request that the credentials and the arguments of a call make.
pub record Asks (call : Call) (b : Buf) (req : Request) : Type 0 where
  pub input : List ℕ
  pub rest : List ℕ
  pub who : authenticate (cred call) (verf call) ≡ ok (req.auth_resp, req.creds)
  pub read : bytes b ≡ ok input
  pub decoded :
      from_buf (decode_all compound_fields input)
      ≡ ok ((req.tag, (req.minor_ver, (req.ops_count, tt))), rest)

-- The replies to COMPOUND, and what they leave of the state. A compound runs on a buffer of the pool, with
-- the bytes behind the head of the arguments.
pub data Answer {F : Type 0} (file_operation : ℕ → Handler F) (call : Call) (b : Buf) (w : World F)
    (r : Response F) : Type 0 where
  rejected :
      (code : ℕ)
      → authenticate (cred call) (verf call) ≡ err (auth_error code)
      → r.reply ≡ reply_header call msg_denied
      → contents r.body ≡ put_uint32 1 ++ (put_uint32 code ++ [])
      → r.world ≡ w
      → Answer file_operation call b w r
  wrong_minor :
      (req : Request)
      → Asks call b req
      → ltb 2 req.minor_ver ≡ true
      → r.reply ≡ reply_header call msg_accepted
      → contents r.body ≡ header_bytes req 0 minor_vers_mismatch
      → r.world ≡ discard b (with_pool w (Bufpool.get w.pool).1)
      → Answer file_operation call b w r
  ran :
      (req : Request) (asks : Asks call b req) (ended : State F)
      → ltb 2 req.minor_ver ≡ false
      → run file_operation req (
          start file_operation asks.rest
            (Bufpool.get w.pool).0
            (with_pool w (Bufpool.get w.pool).1))
        ≡ ok ended
      → r.reply ≡ reply_header call msg_accepted
      → r.body ≡ ended.out
      → r.world ≡ discard b ended.world
      → Outcome req w.clients (Bufpool.get w.pool).0 r.body
      → Answer file_operation call b w r

module _ {F : Type 0} (file_operation : ℕ → Handler F)
    (law : (n : ℕ) (s : State F) → IsFresh s.out → Answers s.out (file_operation n s)) where
  denied-Answer :
      (call : Call) (code : ℕ) (b : Buf) (w : World F)
      → authenticate (cred call) (verf call) ≡ err (auth_error code)
      → OnOk (Answer file_operation call b w) (denied file_operation call code b w)
  unfolding denied write_all encode_all OnOk
  denied-Answer call code b w who =
      rejected code who refl (write_clean _ (reset b) (reset-IsClean b)) refl

  minor_version_mismatch-Answer :
      (call : Call) (req : Request) (b : Buf) (w : World F)
      → Asks call b req
      → All IsClean w.pool.bufs
      → ltb 2 req.minor_ver ≡ true
      → OnOk
          (Answer file_operation call b w)
          (minor_version_mismatch file_operation call req.auth_resp req.tag b w)
  unfolding minor_version_mismatch write_all encode_all OnOk header_bytes
  minor_version_mismatch-Answer call req b w asks clean high =
      wrong_minor req asks high refl
        (write_clean _ (Bufpool.get w.pool).0 (get-IsClean w.pool clean)) refl

  run_compound-Answer :
      (call : Call) (req : Request) (b : Buf) (w : World F) (asks : Asks call b req)
      → All IsClean w.pool.bufs
      → ltb 2 req.minor_ver ≡ false
      → OnOk (Answer file_operation call b w) (run_compound file_operation call req asks.rest b w)
  unfolding run_compound OnOk
  run_compound-Answer call req b w asks clean low =
      let got = Bufpool.get w.pool in
      let c = get-IsClean w.pool clean in
      bind-OnOk _
        (run file_operation req (start file_operation asks.rest got.0 (with_pool w got.1))) _
        (λ ended e. ran req asks ended low e refl refl refl (
          run-Outcome file_operation req law
            (start file_operation asks.rest got.0 (with_pool w got.1)) ended c.fresh c.empty e))

  accepted-Answer :
      (call : Call) (found : Val auth × Creds) (b : Buf) (w : World F)
      → authenticate (cred call) (verf call) ≡ ok found
      → All IsClean w.pool.bufs
      → OnOk (Answer file_operation call b w) (accepted file_operation call found b w)
  unfolding accepted
  accepted-Answer call (resp, creds) b w who clean = bind-OnOk _ (bytes b) _ (λ input e.
      bind-OnOk _ (from_buf (decode_all compound_fields input)) _ (λ head e'.
        versions
          (record {
            auth_resp = resp;
            minor_ver = head.0.1.0;
            tag = head.0.0;
            ops_count = head.0.1.1.0;
            creds = creds;
          })
          (record { input = input; rest = head.1; who = who; read = e; decoded = e' })))
    where
      by_version : Request → List ℕ → Bool → Result (Response F)
      by_version req rest t =
          if t
          then minor_version_mismatch file_operation call req.auth_resp req.tag b w
          else run_compound file_operation call req rest b w

      versions :
          (req : Request) (asks : Asks call b req)
          → OnOk (Answer file_operation call b w) (by_version req asks.rest (ltb 2 req.minor_ver))
      versions req asks = elim (Bool-cases (ltb 2 req.minor_ver)) [
        | inl high ↦
            subst (λ t. OnOk (Answer file_operation call b w) (by_version req asks.rest t))
              (sym high) (minor_version_mismatch-Answer call req b w asks clean high)
        | inr low ↦
            subst (λ t. OnOk (Answer file_operation call b w) (by_version req asks.rest t))
              (sym low) (run_compound-Answer call req b w asks clean low)
      ]

  authenticated-Answer :
      (call : Call) (found : Result (Val auth × Creds)) (b : Buf) (w : World F)
      → authenticate (cred call) (verf call) ≡ found
      → All IsClean w.pool.bufs
      → OnOk (Answer file_operation call b w) (authenticated file_operation call found b w)
  unfolding authenticated OnOk
  authenticated-Answer call (ok found) b w who clean = accepted-Answer call found b w who clean
  authenticated-Answer call (err (auth_error code)) b w who clean = denied-Answer call code b w who
  authenticated-Answer call (err e) b w who clean = tt
  authenticated-Answer call panic b w who clean = tt
  authenticated-Answer call stuck b w who clean = tt

  -- With clean buffers in the pool and operations on files that add one reply each, a reply to COMPOUND is
  -- a rejection where `Authenticate` has an error, or the mismatch of a minor version above 2, or what
  -- `Run` gives of a new compound on the bytes behind the head, with its outcome; and so is the state.
  pub compound-Answer :
      (call : Call) (b : Buf) (w : World F) (r : Response F)
      → All IsClean w.pool.bufs
      → compound file_operation call b w ≡ ok r
      → Answer file_operation call b w r
  unfolding compound OnOk
  compound-Answer call b w r clean e =
      subst (OnOk (Answer file_operation call b w)) e
        (authenticated-Answer call (authenticate (cred call) (verf call)) b w refl clean)

-- The reply, the bytes behind its header, and the state, where a call is answered without a compound.
pub record Settles {F : Type 0} (stat : ℕ) (payload : List ℕ) (call : Call) (w : World F)
    (r : Response F) : Type 0 where
  pub header : r.reply ≡ reply_header call stat
  pub payload_there : contents r.body ≡ payload
  pub same_world : r.world ≡ w

abbrev pub mismatch_bytes : List ℕ
mismatch_bytes =
    (put_uint32 0 ++ (put_bytes [] ++ []))
    ++ (put_uint32 2 ++ (put_uint32 4 ++ (put_uint32 4 ++ [])))

module _ {F : Type 0} (file_operation : ℕ → Handler F) where
  -- A call of another version than 4, whatever the procedure, succeeds: the reply has the number of the
  -- call, PROG_MISMATCH and the versions 4 and 4, and the state stays as it was.
  pub handle-mismatch :
      (call : Call) (b : Buf) (w : World F)
      → (vers call == 4) ≡ false
      → (r : Response F) × (handle file_operation call b w ≡ ok r)
        × Settles msg_accepted mismatch_bytes call w r
  unfolding handle program_mismatch write_all encode_all
  handle-mismatch call b w other = (
    record {
      reply = reply_header call msg_accepted;
      body = write mismatch_bytes (reset b);
      world = w;
    },
    rw (other, handle) refl,
    record {
      header = refl;
      payload_there = write_clean _ (reset b) (reset-IsClean b);
      same_world = refl;
    },
  )

  -- A compound of version 4 with credentials of AUTH_NULL is denied as too weak, before anything of
  -- its arguments is read, and the state stays as it was.
  pub handle-tooweak :
      (call : Call) (b : Buf) (w : World F)
      → vers call ≡ 4
      → proc call ≡ 1
      → (cred call).0 ≡ 0
      → (r : Response F) × (handle file_operation call b w ≡ ok r)
        × Settles msg_denied (put_uint32 1 ++ (put_uint32 5 ++ [])) call w r
  unfolding handle handle_proc compound authenticate authenticated denied write_all encode_all
  handle-tooweak call b w v p c = (
    record {
      reply = reply_header call msg_denied;
      body = write (put_uint32 1 ++ (put_uint32 5 ++ [])) (reset b);
      world = w;
    },
    rw (v, p, c) refl,
    record {
      header = refl;
      payload_there = write_clean _ (reset b) (reset-IsClean b);
      same_world = refl;
    },
  )
