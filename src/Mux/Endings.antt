-- ===== src/Mux/Endings.antt =====
-- mux_v4.go: SEQUENCE and the first operation of a compound.
use nfs4go.Common.{
  ℕ, ◌≡◌, refl, sym, ap, ◌∙◌, subst, Bool, true, false, List, [], ◌∷◌, Option, none, some,
  if◌then◌else◌, Result, ok, err, panic, stuck, ◌>>=◌,
}
use nfs4go.Bufpool.{Buf, copy}
use nfs4go.Bufpool.Contents.{contents}
use nfs4go.Clients.Client.{Client, Slot, get_slot, client_id_from_session_id}
use nfs4go.Clients.Table.{Clients, get}
use nfs4go.Xdr.Layout.{Layout, Val}
use nfs4go.Xdr.Codec.{decode}
use nfs4go.Msg.Args.{sequence4args}
use nfs4go.Msg.Ops.{op_sequence}
use nfs4go.Msg.Status.{op_not_in_session, not_only_op, deadsession}
use nfs4go.Mux.State.{
  Request, World, State, Handler, from_buf, read_args, look_at_clock, with_world, with_clients,
}
use nfs4go.Mux.Dispatch.{contains, do_operation}
use nfs4go.Mux.Run.{
  put_slot, Verdict, replay, refused, execute, nil_buffer, run_after, sequence_reply, by_verdict,
  finish_sequence, on_slot, on_client, run_sequence, first_operation,
}
use nfs4go.Mux.Appends.{IsFresh}
use nfs4go.Mux.Answers.{Answers, answer-Answers}
use nfs4go.Mux.Handlers.{do_operation-Answers}
use nfs4go.Mux.Complete.{OnOk, bind-OnOk}
use nfs4go.Mux.Outcome.{
  repeated, Permits, judge-Permits, Ends, refuse-Ends, run_after-Ends, finish_sequence-Ends,
}

module _ {F : Type 0} (file_operation : ℕ → Handler F) (req : Request) (held : Clients)
    (law : (n : ℕ) (s : State F) → IsFresh s.out → Answers s.out (file_operation n s)) where
  sequence_reply-Answers :
      (args : Val sequence4args) (st : State F)
      → IsFresh st.out
      → Answers st.out (sequence_reply file_operation req args st)
  unfolding sequence_reply
  sequence_reply-Answers (session_id, (sequence_id, (slot_id, rest))) st h =
      answer-Answers _ _ _ _ st h

  by_verdict-Ends :
      (args : Val sequence4args) (v : Verdict) (st : State F)
      → IsFresh st.out
      → contents st.out ≡ []
      → Permits held v
      → Ends req held st.out (by_verdict file_operation req args v st)
  unfolding Ends OnOk by_verdict Permits
  by_verdict-Ends args (replay b) st h empty known =
      bind-OnOk _ (copy b st.out) _ (λ out' e. repeated b known e)
  by_verdict-Ends args (refused status) st h empty known =
      refuse-Ends req held op_sequence status st h empty known
  by_verdict-Ends args nil_buffer st h empty known = tt
  by_verdict-Ends (session_id, (sequence_id, (slot_id, rest))) (execute slot) st h empty known =
      bind-OnOk _ (put_slot session_id slot_id slot st.world.clients) _ (λ cs e.
        bind-OnOk _ (run_after file_operation req first (started cs)) finish (λ st2 e2.
          finish_sequence-Ends file_operation req held law st.out session_id slot_id slot slot.buf
            st2
            (subst (Ends req held st.out) e2 (
              run_after-Ends file_operation req held law first (started cs)
                (sequence_reply-Answers (session_id, (sequence_id, (slot_id, rest)))) h empty))))
    where
      first : Handler F
      first = sequence_reply file_operation req (session_id, (sequence_id, (slot_id, rest)))

      finish : State F → Result (State F)
      finish = finish_sequence file_operation req session_id slot_id slot slot.buf

      started : Clients → State F
      started cs = record (with_world st (with_clients st.world cs)) {
        session_id = session_id;
        slot = some slot;
      }

  on_slot-Ends :
      (args : Val sequence4args) (now : ℕ) (c : Client) (held' : Clients) (o : Option Slot)
      (st : State F)
      → get now (client_id_from_session_id args.0) held ≡ some (c, held')
      → get_slot args.0 args.1.1.0 c ≡ o
      → IsFresh st.out
      → contents st.out ≡ []
      → Ends req held st.out (on_slot file_operation req args o st)
  unfolding on_slot contains
  on_slot-Ends args now c held' none st got found h empty =
      refuse-Ends req held op_sequence deadsession st h empty refl
  on_slot-Ends args now c held' (some slot) st got found h empty =
      by_verdict-Ends args _ st h empty (
        judge-Permits held args.1.0 args.1.1.1.1.0 slot (λ b full kept. record {
          now = now;
          session_id = args.0;
          slot_id = args.1.1.0;
          client = c;
          held' = held';
          slot = slot;
          got = got;
          found = found;
          full = full;
          kept = kept;
        }))

  on_client-Ends :
      (args : Val sequence4args) (now : ℕ) (found : Option (Client × Clients)) (st : State F)
      → get now (client_id_from_session_id args.0) held ≡ found
      → IsFresh st.out
      → contents st.out ≡ []
      → Ends req held st.out (on_client file_operation req args found st)
  unfolding on_client contains Ends
  on_client-Ends args now none st got h empty =
      refuse-Ends req held op_sequence deadsession st h empty refl
  on_client-Ends args now (some (c, cs)) st got h empty =
      on_slot-Ends args now c cs (get_slot args.0 args.1.1.0 c)
        (with_world st (with_clients st.world cs)) got refl h empty

  args_then :
      (l : Layout) (r : Result (Val l × List ℕ)) (st : State F)
      (k : Val l × State F → Result (State F))
      → ((args : Val l) (rest : List ℕ)
          → Ends req held st.out (k (args, record st { input = rest })))
      → Ends req held st.out ((do (args, rest) ← r; ok (args, record st { input = rest })) >>= k)
  unfolding Ends OnOk
  args_then l (ok (args, rest)) st k h = h args rest
  args_then l (err e) st k h = tt
  args_then l panic st k h = tt
  args_then l stuck st k h = tt

  pub read_args-Ends :
      (l : Layout) (st : State F) (k : Val l × State F → Result (State F))
      → ((args : Val l) (rest : List ℕ)
          → Ends req held st.out (k (args, record st { input = rest })))
      → Ends req held st.out (read_args l st >>= k)
  unfolding read_args
  read_args-Ends l st k h = args_then l (from_buf (decode l st.input)) st k h

  after_clock :
      (out : Buf) (ticks : List ℕ) (w : World F) (k : ℕ × World F → Result (State F))
      → ((now : ℕ) (w' : World F) → w'.clients ≡ w.clients → Ends req held out (k (now, w')))
      → Ends req held out
          ((elim ticks [ [] ↦ stuck | now ∷ later ↦ ok (now, record w { clock = later }) ]) >>= k)
  unfolding Ends OnOk
  after_clock out [] w k h = tt
  after_clock out (now ∷ later) w k h = h now (record w { clock = later }) refl

  look_at_clock-Ends :
      (out : Buf) (w : World F) (k : ℕ × World F → Result (State F))
      → ((now : ℕ) (w' : World F) → w'.clients ≡ w.clients → Ends req held out (k (now, w')))
      → Ends req held out (look_at_clock w >>= k)
  unfolding look_at_clock
  look_at_clock-Ends out w k h = after_clock out w.clock w k h

  run_sequence-Ends :
      (st : State F)
      → st.world.clients ≡ held
      → IsFresh st.out
      → contents st.out ≡ []
      → Ends req held st.out (run_sequence file_operation req st)
  unfolding run_sequence
  run_sequence-Ends st whole h empty = read_args-Ends sequence4args st _ (λ args rest.
      look_at_clock-Ends st.out st.world _ (λ now w same.
        on_client-Ends args now _ (with_world (record st { input = rest }) w)
          (ap (λ cs. get now (client_id_from_session_id args.0) cs) (sym (same ∙ whole))) h empty))

  do_operation-Ends :
      (op : ℕ) (st : State F)
      → IsFresh st.out
      → contents st.out ≡ []
      → Ends req held st.out (run_after file_operation req (do_operation file_operation req op) st)
  do_operation-Ends op st h empty =
      run_after-Ends file_operation req held law (do_operation file_operation req op) st
        (λ s fresh. do_operation-Answers file_operation req op s law fresh) h empty

  either :
      (out : Buf) (t : Bool) (x y : Result (State F))
      → Ends req held out x
      → Ends req held out y
      → Ends req held out (if t then x else y)
  either out true x y p q = p
  either out false x y p q = q

  pub first_operation-Ends :
      (op : ℕ) (st : State F)
      → st.world.clients ≡ held
      → IsFresh st.out
      → contents st.out ≡ []
      → Ends req held st.out (first_operation file_operation req op st)
  unfolding first_operation contains
  first_operation-Ends op st whole h empty = either _ _ _ _ (do_operation-Ends op st h empty) (
      either _ _ _ _ (refuse-Ends req held op op_not_in_session st h empty refl) (
        either _ _ _ _ (refuse-Ends req held op not_only_op st h empty refl)
          (either _ _ _ _ (run_sequence-Ends st whole h empty) (do_operation-Ends op st h empty))))
