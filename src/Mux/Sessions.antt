-- ===== src/Mux/Sessions.antt =====
-- mux_v4.go: the operations on clients and sessions.
use Prim.Native.Nat.{bit_and, bit_or}
use nfs4go.Common.{
  ℕ, Bool, not, ◌||◌, list_eq, List, [], ◌∷◌, Option, none, some, ltb, ◌==◌, if◌then◌else◌, Result,
  ok, err, panic, stuck, ◌>>=◌,
}
use nfs4go.Common.Assoc.{lookup, insert}
use nfs4go.Common.Int.{pos}
use nfs4go.Auth.{creds_equal}
use nfs4go.Clients.Client.{Client, build_session, remove_session, client_id_from_session_id}
use nfs4go.Clients.Table.{Clients, Added, add, confirm, confirm41, get, get_by_name, remove_client}
use nfs4go.Xdr.Layout.{Layout, Fields, Val, ◌▸◌, uint32, uint64, boolean, bytes16, end, zero_val}
use nfs4go.Msg.Types.{state_protect4, channel_attrs4}
use nfs4go.Msg.Args.{
  setclientid4args, setclientid_confirm4args, exchange_id4args, create_session4args, renew4args,
}
use nfs4go.Msg.Replies.{setclientid4resok, exchange_id4resok, create_session4resok, secinfo4resok}
use nfs4go.Msg.Ops.{
  op_setclientid, op_setclientid_confirm, op_exchange_id, op_create_session, op_reclaim_complete,
  op_destroy_session, op_destroy_clientid, op_renew, op_secinfo, op_secinfo_no_name,
  flag_bind_princ_stateid, flag_upd_confirmed_rec_a, flag_confirmed_r, flag_use_non_pnfs,
  session_flag_persist, session_flag_conn_back_chan,
}
use nfs4go.Msg.Status.{nfs4_ok, op_illegal, stale_clientid, expired, access, err2status}
use nfs4go.Mux.State.{
  Request, World, State, Handler, read_args, look_at_clock, with_world, with_clients,
}
use nfs4go.Mux.Output.{answer, plain}

-- A literal `Client` of the name, the verifier and the credentials.
abbrev pub new_client : List ℕ → ℕ → Request → Client
new_client name verifier req = record {
  name = name;
  verifier = verifier;
  creds = req.creds;
  client_id = 0;
  last_seen = 0;
  confirmed = Bool.false;
  confirm_value = 0;
  seq_id = 0;
  busy = pos 0;
  sessions = [];
}

abbrev pub one_reply : Layout → Fields
one_reply l = l ▸ end

-- The text "sftp-nfs-4.1".
abbrev pub server_major_id : List ℕ
server_major_id =
    b's' ∷ b'f' ∷ b't' ∷ b'p' ∷ b'-' ∷ b'n' ∷ b'f' ∷ b's' ∷ b'-' ∷ b'4' ∷ b'.' ∷ b'1' ∷ []

unfoldable pub exchange_id_reply : ℕ → ℕ → ℕ → Val exchange_id4resok
exchange_id_reply client_id seq_id flags = (
  client_id,
  (seq_id, (flags, (zero_val state_protect4, ((0, (server_major_id, tt)), ([], (none, tt)))))),
)

-- Without padding and RDMA.
unfoldable pub negotiated : Val channel_attrs4 → Val channel_attrs4
negotiated (pad_size, (a, (b, (c, (d, (e, (rdma, _))))))) = (0, (a, (b, (c, (d, (e, ([], tt)))))))

module _ {F : Type 0} (req : Request) where
  unfoldable pub added : ℕ → Result Added → (Added → State F → Result (ℕ × State F)) → Handler F
  added op (ok a) next st =
      next a (with_world st (record (with_clients st.world a.clients) { draws = a.draws }))
  added op (err e) next st = plain op (err2status e) st
  added op panic next st = panic
  added op stuck next st = stuck

  unfoldable pub set_client_id : Handler F
  unfolding added
  set_client_id st = if ltb 0 req.minor_ver then plain op_setclientid op_illegal st else (do
    (args, st1) ← read_args setclientid4args st
    (now, w) ← look_at_clock st1.world
    let st2 = with_world st1 w
    added op_setclientid (add now w.draws (new_client args.0.1.0 args.0.0 req) w.clients)
        (λ a st3.
          answer op_setclientid nfs4_ok (one_reply setclientid4resok)
            ((a.id, (a.confirm_value, tt)), tt) st3)
        st2)

  -- A change of the table that may be refused.
  unfoldable pub changed : ℕ → Result Clients → Handler F
  changed op (ok cs) st = plain op nfs4_ok (with_world st (with_clients st.world cs))
  changed op (err e) st = plain op (err2status e) st
  changed op panic st = panic
  changed op stuck st = stuck

  unfoldable pub set_client_id_confirm : Handler F
  unfolding changed
  set_client_id_confirm st =
      if ltb 0 req.minor_ver then plain op_setclientid_confirm op_illegal st else (do
        (args, st1) ← read_args setclientid_confirm4args st
        (now, w) ← look_at_clock st1.world
        changed op_setclientid_confirm (confirm now args.0 args.1.0 req.creds w.clients)
            (with_world st1 w))

  unfoldable pub register : Val exchange_id4args → Handler F
  unfolding added exchange_id_reply
  register args st = do
    (now, w) ← look_at_clock st.world
    added op_exchange_id (add now w.draws (new_client args.0.1.0 args.0.0 req) w.clients)
        (λ a st'.
          answer op_exchange_id nfs4_ok (one_reply exchange_id4resok)
            (exchange_id_reply a.id a.seq_id (bit_or flag_use_non_pnfs flag_bind_princ_stateid), tt)
            st')
        (with_world st w)

  unfoldable pub known_client : Val exchange_id4args → Option (ℕ × Clients) → Handler F
  unfolding register exchange_id_reply
  known_client args (some (client_id, cs)) st =
      answer op_exchange_id nfs4_ok (one_reply exchange_id4resok)
        (
          exchange_id_reply client_id 0
              (bit_or (bit_or flag_use_non_pnfs flag_bind_princ_stateid) flag_confirmed_r),
          tt,
        )
        (with_world st (with_clients st.world cs))
  known_client args none st =
      if bit_and args.1.0 flag_upd_confirmed_rec_a == 0
      then register args st
      else plain op_exchange_id stale_clientid st

  unfoldable pub exchange_id : Handler F
  unfolding known_client
  exchange_id st = if ltb req.minor_ver 1 then plain op_exchange_id op_illegal st else (do
    (args, st1) ← read_args exchange_id4args st
    (now, w) ← look_at_clock st1.world
    known_client args (get_by_name now args.0.1.0 args.0.0 req.creds w.clients) (with_world st1 w))

  -- `client.BuildSession` on the client that `Confirm41` returned.
  unfoldable pub new_session : Val create_session4args → Option Client → Handler F
  unfolding negotiated
  new_session args none st = panic
  new_session (client_id, (seq_id, (flags, (fore, (back, _))))) (some c) st = do
    (session_id, draws', pool', c') ←
        build_session (not (bit_and flags session_flag_persist == 0)) st.world.draws st.world.pool c
    let w = record st.world {
      clients = insert client_id c' st.world.clients;
      pool = pool';
      draws = draws';
    }
    answer op_create_session nfs4_ok (one_reply create_session4resok)
        (
          (
            session_id,
            (
              seq_id,
              (
                bit_and flags (bit_or session_flag_conn_back_chan session_flag_persist),
                (negotiated fore, (negotiated back, tt)),
              ),
            ),
          ),
          tt,
        )
        (with_world st w)

  unfoldable pub confirmed_session : Val create_session4args → Result Clients → Handler F
  unfolding new_session
  confirmed_session args (ok cs) st =
      new_session args (lookup args.0 cs) (with_world st (with_clients st.world cs))
  confirmed_session args (err e) st = plain op_create_session (err2status e) st
  confirmed_session args panic st = panic
  confirmed_session args stuck st = stuck

  unfoldable pub create_session : Handler F
  unfolding confirmed_session
  create_session st = if ltb req.minor_ver 1 then plain op_create_session op_illegal st else (do
    (args, st1) ← read_args create_session4args st
    (now, w) ← look_at_clock st1.world
    confirmed_session args (confirm41 now args.0 args.1.0 req.creds w.clients) (with_world st1 w))

  unfoldable pub reclaim_complete : Handler F
  reclaim_complete st =
      if ltb req.minor_ver 1
      then plain op_reclaim_complete op_illegal st
      else (do (arg, st1) ← read_args boolean st; plain op_reclaim_complete nfs4_ok st1)

  remove_found : List ℕ → Option (Client × Clients) → World F → World F
  remove_found session_id none w = w
  remove_found session_id (some (c, cs)) w =
      let (pool', c') = remove_session session_id w.pool c in
      record w { clients = insert (client_id_from_session_id session_id) c' cs; pool = pool' }

  -- Whether the compound's own session is gone after this.
  unfoldable pub hands_back : List ℕ → Option (Client × Clients) → State F → Bool
  hands_back session_id none st = st.handed_back
  hands_back session_id (some found) st = st.handed_back || list_eq session_id st.session_id

  unfoldable pub destroy_session : Handler F
  unfolding remove_found hands_back
  destroy_session st = if ltb req.minor_ver 1 then plain op_destroy_session op_illegal st else (do
    (session_id, st1) ← read_args bytes16 st
    (now, w) ← look_at_clock st1.world
    let found = get now (client_id_from_session_id session_id) w.clients
    plain op_destroy_session nfs4_ok (record (with_world st1 (remove_found session_id found w)) {
      handed_back = hands_back session_id found st1;
    }))

  unfoldable pub destroy_client_id : Handler F
  unfolding changed
  destroy_client_id st =
      if ltb req.minor_ver 1 then plain op_destroy_clientid op_illegal st else (do
        (client_id, st1) ← read_args uint64 st
        changed op_destroy_clientid (remove_client client_id st1.world.clients) st1)

  unfoldable pub renewed : Option (Client × Clients) → Handler F
  renewed none st = plain op_renew expired st
  renewed (some (c, cs)) st =
      let st' = with_world st (with_clients st.world cs) in
      if not (creds_equal c.creds req.creds)
      then plain op_renew access st'
      else plain op_renew nfs4_ok st'

  -- For a minor version above 0 the reply names SETCLIENTID.
  unfoldable pub renew : Handler F
  unfolding renewed
  renew st = if ltb 0 req.minor_ver then plain op_setclientid op_illegal st else (do
    (args, st1) ← read_args renew4args st
    (now, w) ← look_at_clock st1.world
    renewed (get now args.0 w.clients) (with_world st1 w))

-- `AUTH_FLAVOR_UNIX` is the only flavor.
abbrev pub unix_only : Val secinfo4resok
unix_only = ((1, tt) ∷ [], tt)

-- The argument of SECINFO, a name, is not read.
unfoldable pub secinfo : {F : Type 0} → Handler F
secinfo st = answer op_secinfo nfs4_ok (one_reply secinfo4resok) (unix_only, tt) st

unfoldable pub secinfo_no_name : {F : Type 0} → Handler F
secinfo_no_name st = do
  (style, st1) ← read_args uint32 st
  answer op_secinfo_no_name nfs4_ok (one_reply secinfo4resok) (unix_only, tt) st1
