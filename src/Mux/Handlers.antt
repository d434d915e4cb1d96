-- ===== src/Mux/Handlers.antt =====
-- mux_v4.go: the handlers of the operations on clients, sessions and file handles, and the choice
-- among them.
use nfs4go.Common.{
  ℕ, ◌≡◌, refl, false, ltb, if◌then◌else◌, Option, none, some, Result, ok, err, panic, stuck,
}
use nfs4go.Clients.Client.{Client}
use nfs4go.Clients.Table.{Clients, Added}
use nfs4go.Clients.Refusals.{Refuses, add-Refuses, confirm41-Refuses}
use nfs4go.Xdr.Layout.{Fields, Val, ◌▸◌, end}
use nfs4go.Msg.Replies.{
  setclientid4resok, exchange_id4resok, create_session4resok, secinfo4resok, getfh4resok,
}
use nfs4go.Msg.Ops.{
  op_setclientid, op_setclientid_confirm, op_exchange_id, op_create_session, op_reclaim_complete,
  op_destroy_session, op_destroy_clientid, op_getfh, op_savefh, op_restorefh, op_renew, op_secinfo,
  op_secinfo_no_name,
}
use nfs4go.Msg.Args.{exchange_id4args, create_session4args}
use nfs4go.Mux.State.{FileHandle, Request, State, Handler}
use nfs4go.Mux.Sessions.{
  set_client_id, set_client_id_confirm, exchange_id, create_session, reclaim_complete,
  destroy_session, destroy_client_id, renew, secinfo, secinfo_no_name, added, changed, register,
  known_client, new_session, confirmed_session, renewed,
}
use nfs4go.Mux.Handles.{get_fh, save_fh, restore_fh, get_handle, save_handle, restore_handle}
use nfs4go.Mux.Dispatch.{contains, file_ops, do_operation, other_operation, not_implemented}
use nfs4go.Mux.Appends.{IsFresh}
use nfs4go.Mux.Answers.{Answers, if-Answers}
use nfs4go.Mux.Shapes.{
  form_of, Shaped, Ensures, Ensures-Answers, plain-Shaped, refused-Shaped, results-Shaped,
  if-Ensures, select-Ensures, bind-Ensures, read_args-Ensures, look_at_clock-Ensures,
}

ruleset answers = (
  plain-Shaped, refused-Shaped, refl, results-Shaped, if-Ensures, bind-Ensures, read_args-Ensures,
  look_at_clock-Ensures,
)

module _ {F : Type 0} where
  get_handle-Shaped :
      (fh : Option FileHandle) (st : State F)
      → IsFresh st.out
      → Ensures (Shaped (op_getfh, getfh4resok ▸ end) st.out) (get_handle fh st)
  unfolding get_handle Ensures
  get_handle-Shaped none st h = search answers
  get_handle-Shaped (some fh) st h = search answers

  save_handle-Shaped :
      (fh : Option FileHandle) (st : State F)
      → IsFresh st.out
      → Ensures (Shaped (op_savefh, end) st.out) (save_handle fh st)
  unfolding save_handle Ensures
  save_handle-Shaped none st h = search answers
  save_handle-Shaped (some fh) st h = search answers

  restore_handle-Shaped :
      (fh : Option FileHandle) (st : State F)
      → IsFresh st.out
      → Ensures (Shaped (op_restorefh, end) st.out) (restore_handle fh st)
  unfolding restore_handle Ensures
  restore_handle-Shaped none st h = search answers
  restore_handle-Shaped (some fh) st h = search answers

  pub not_implemented-Shaped :
      (op : ℕ) (st : State F)
      → IsFresh st.out
      → Ensures (Shaped (op, end) st.out) (not_implemented op st)
  unfolding not_implemented Ensures
  not_implemented-Shaped op st h = search answers

  get_fh-Shaped :
      (st : State F)
      → IsFresh st.out
      → Ensures (Shaped (op_getfh, getfh4resok ▸ end) st.out) (get_fh st)
  unfolding get_fh Ensures
  get_fh-Shaped st h = search (answers, get_handle-Shaped)

  save_fh-Shaped :
      (st : State F) → IsFresh st.out → Ensures (Shaped (op_savefh, end) st.out) (save_fh st)
  unfolding save_fh Ensures
  save_fh-Shaped st h = search (answers, save_handle-Shaped)

  restore_fh-Shaped :
      (st : State F) → IsFresh st.out → Ensures (Shaped (op_restorefh, end) st.out) (restore_fh st)
  unfolding restore_fh Ensures
  restore_fh-Shaped st h = search (answers, restore_handle-Shaped)

  secinfo-Shaped :
      (st : State F)
      → IsFresh st.out
      → Ensures (Shaped (op_secinfo, secinfo4resok ▸ end) st.out) (secinfo st)
  unfolding secinfo Ensures
  secinfo-Shaped st h = search answers

  secinfo_no_name-Shaped :
      (st : State F)
      → IsFresh st.out
      → Ensures (Shaped (op_secinfo_no_name, secinfo4resok ▸ end) st.out) (secinfo_no_name st)
  unfolding secinfo_no_name Ensures
  secinfo_no_name-Shaped st h = search answers

module _ {F : Type 0} (req : Request) where
  changed-Shaped :
      (op : ℕ) (r : Result Clients) (st : State F)
      → IsFresh st.out
      → Ensures (Shaped (op, end) st.out) (changed req op r st)
  unfolding changed Ensures
  changed-Shaped op (ok cs) st h = plain-Shaped _ _ _ h
  changed-Shaped op (err e) st h = plain-Shaped _ _ _ h
  changed-Shaped op panic st h = tt
  changed-Shaped op stuck st h = tt

  added-Shaped :
      (op : ℕ) (results : Fields) (r : Result Added) (next : Added → State F → Result (ℕ × State F))
      (st : State F)
      → Refuses r
      → IsFresh st.out
      → ((a : Added) (st' : State F)
          → IsFresh st'.out
          → Ensures (Shaped (op, results) st'.out) (next a st'))
      → Ensures (Shaped (op, results) st.out) (added req op r next st)
  unfolding added Ensures Refuses
  added-Shaped op results (ok a) next st bad h k = k a _ h
  added-Shaped op results (err e) next st bad h k = refused-Shaped _ _ _ _ bad h
  added-Shaped op results panic next st bad h k = tt
  added-Shaped op results stuck next st bad h k = tt

  renewed-Shaped :
      (found : Option (Client × Clients)) (st : State F)
      → IsFresh st.out
      → Ensures (Shaped (op_renew, end) st.out) (renewed req found st)
  unfolding renewed Ensures
  renewed-Shaped none st h = search answers
  renewed-Shaped (some (c, cs)) st h = search answers

  register-Shaped :
      (args : Val exchange_id4args) (st : State F)
      → IsFresh st.out
      → Ensures (Shaped (op_exchange_id, exchange_id4resok ▸ end) st.out) (register req args st)
  unfolding register Ensures
  register-Shaped args st h = search (answers, added-Shaped, add-Refuses)

  known_client-Shaped :
      (args : Val exchange_id4args) (known : Option (ℕ × Clients)) (st : State F)
      → IsFresh st.out
      → Ensures
          (Shaped (op_exchange_id, exchange_id4resok ▸ end) st.out)
          (known_client req args known st)
  unfolding known_client Ensures
  known_client-Shaped args (some (id, cs)) st h = search answers
  known_client-Shaped args none st h = search (answers, register-Shaped)

  new_session-Shaped :
      (args : Val create_session4args) (c : Option Client) (st : State F)
      → IsFresh st.out
      → Ensures
          (Shaped (op_create_session, create_session4resok ▸ end) st.out)
          (new_session req args c st)
  unfolding new_session Ensures
  new_session-Shaped args none st h = tt
  new_session-Shaped (id, (seq_id, (flags, (fore, (back, rest))))) (some c) st h = search answers

  confirmed_session-Shaped :
      (args : Val create_session4args) (r : Result Clients) (st : State F)
      → Refuses r
      → IsFresh st.out
      → Ensures
          (Shaped (op_create_session, create_session4resok ▸ end) st.out)
          (confirmed_session req args r st)
  unfolding confirmed_session Ensures Refuses
  confirmed_session-Shaped args (ok cs) st bad h = new_session-Shaped args _ _ h
  confirmed_session-Shaped args (err e) st bad h = refused-Shaped _ _ _ _ bad h
  confirmed_session-Shaped args panic st bad h = tt
  confirmed_session-Shaped args stuck st bad h = tt

  set_client_id-Shaped :
      (st : State F)
      → IsFresh st.out
      → Ensures (Shaped (op_setclientid, setclientid4resok ▸ end) st.out) (set_client_id req st)
  unfolding set_client_id Ensures
  set_client_id-Shaped st h = search (answers, added-Shaped, add-Refuses)

  set_client_id_confirm-Shaped :
      (st : State F)
      → IsFresh st.out
      → Ensures (Shaped (op_setclientid_confirm, end) st.out) (set_client_id_confirm req st)
  unfolding set_client_id_confirm Ensures
  set_client_id_confirm-Shaped st h = search (answers, changed-Shaped)

  exchange_id-Shaped :
      (st : State F)
      → IsFresh st.out
      → Ensures (Shaped (op_exchange_id, exchange_id4resok ▸ end) st.out) (exchange_id req st)
  unfolding exchange_id Ensures
  exchange_id-Shaped st h = search (answers, known_client-Shaped)

  create_session-Shaped :
      (st : State F)
      → IsFresh st.out
      → Ensures
          (Shaped (op_create_session, create_session4resok ▸ end) st.out)
          (create_session req st)
  unfolding create_session Ensures
  create_session-Shaped st h = search (answers, confirmed_session-Shaped, confirm41-Refuses)

  reclaim_complete-Shaped :
      (st : State F)
      → IsFresh st.out
      → Ensures (Shaped (op_reclaim_complete, end) st.out) (reclaim_complete req st)
  unfolding reclaim_complete Ensures
  reclaim_complete-Shaped st h = search answers

  destroy_session-Shaped :
      (st : State F)
      → IsFresh st.out
      → Ensures (Shaped (op_destroy_session, end) st.out) (destroy_session req st)
  unfolding destroy_session Ensures
  destroy_session-Shaped st h = search answers

  destroy_client_id-Shaped :
      (st : State F)
      → IsFresh st.out
      → Ensures (Shaped (op_destroy_clientid, end) st.out) (destroy_client_id req st)
  unfolding destroy_client_id Ensures
  destroy_client_id-Shaped st h = search (answers, changed-Shaped)

  renew-Shaped :
      (st : State F)
      → IsFresh st.out
      → Ensures
          (Shaped (if ltb 0 req.minor_ver then (op_setclientid, end) else (op_renew, end)) st.out)
          (renew req st)
  unfolding renew Ensures
  renew-Shaped st h = search (answers, select-Ensures, renewed-Shaped)

module _ {F : Type 0} (file_operation : ℕ → Handler F) (req : Request) where
  other_operation-Shaped :
      (op : ℕ) (st : State F)
      → IsFresh st.out
      → Ensures (Shaped (form_of req op) st.out) (other_operation file_operation req op st)
  unfolding other_operation form_of
  other_operation-Shaped op st h =
      search
        (
          select-Ensures, set_client_id-Shaped, set_client_id_confirm-Shaped, exchange_id-Shaped,
          create_session-Shaped, reclaim_complete-Shaped, destroy_session-Shaped,
          destroy_client_id-Shaped, get_fh-Shaped, save_fh-Shaped, restore_fh-Shaped, renew-Shaped,
          secinfo-Shaped, secinfo_no_name-Shaped, not_implemented-Shaped,
        )
        depth 16

  -- An operation that is not on files, if it succeeds on a buffer that nothing was read from, adds one
  -- reply: its code (that of SETCLIENTID for RENEW above minor version 0), the status that it gives to
  -- the loop, and then, with NFS4_OK, its results in their layout, and otherwise nothing.
  pub do_operation-Shaped :
      (op : ℕ) (st : State F)
      → contains file_ops op ≡ false
      → IsFresh st.out
      → Ensures (Shaped (form_of req op) st.out) (do_operation file_operation req op st)
  unfolding do_operation
  do_operation-Shaped op st other h = rw other (other_operation-Shaped op st h)

  -- What holds of every operation, if it holds of those on files.
  pub do_operation-Answers :
      (op : ℕ) (st : State F)
      → ((n : ℕ) (s : State F) → IsFresh s.out → Answers s.out (file_operation n s))
      → IsFresh st.out
      → Answers st.out (do_operation file_operation req op st)
  unfolding do_operation
  do_operation-Answers op st law h =
      if-Answers _ st.out _ _ (law op st h)
        (Ensures-Answers (form_of req op) st.out _ (other_operation-Shaped op st h))
