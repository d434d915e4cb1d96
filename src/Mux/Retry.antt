-- ===== src/Mux/Retry.antt =====
-- mux_v4.go: a client that did not get a reply sends its call again.
use nfs4go.Common.{
  ℕ, ◌+◌, ◌%◌, ◌^◌, ◌≡◌, refl, sym, ap, ◌∙◌, subst, true, [], ◌++◌, some, some_inj, ok,
}
use nfs4go.Common.Assoc.{lookup}
use nfs4go.Bufpool.{Buf}
use nfs4go.Bufpool.Contents.{IsValid, contents}
use nfs4go.Clients.Client.{Client, Slot, client_id_from_session_id}
use nfs4go.Xdr.Layout.{Val}
use nfs4go.Msg.Args.{sequence4args}
use nfs4go.Mux.State.{Request, State, Handler}
use nfs4go.Mux.Run.{execute, judge, run_sequence}
use nfs4go.Mux.Appends.{IsFresh}
use nfs4go.Mux.Answers.{Answers}
use nfs4go.Mux.Complete.{OnOk}
use nfs4go.Mux.Slots.{Keeps}
use nfs4go.Mux.Replay.{Calls, judged, run_sequence_lem, run_sequence_again}
use nfs4go.Mux.Kept.{IsKept, judge_next, execute-IsKept}

-- The next call of a slot that is to be kept.
pub record IsNext (args : Val sequence4args) (slot : Slot) (b : Buf) : Type 0 where
  pub next : (slot.sequence_id + 1) % 2 ^ 32 ≡ args.1.0
  pub cache_this : args.1.1.1.1.0 ≡ true
  pub kept : slot.buf ≡ some b
  pub valid : IsValid b

judge-IsNext :
    (args : Val sequence4args) (slot : Slot) (b : Buf)
    → IsNext args slot b
    → judge args.1.0 args.1.1.1.1.0 slot
      ≡ execute (record slot { sequence_id = args.1.0; contains_data = true })
judge-IsNext args slot b h =
    ap (λ t. judge args.1.0 t slot) h.cache_this ∙ judge_next args.1.0 slot b h.next h.kept

module _ {F : Type 0} (file_operation : ℕ → Handler F) (req : Request)
    (law : (n : ℕ) (s : State F) → IsFresh s.out → Answers s.out (file_operation n s)) where
  run_sequence-IsKept :
      (args : Val sequence4args) (slot : Slot) (b : Buf) (st end : State F)
      → Calls file_operation req args st
      → (k : Keeps args.0 args.1.1.0 slot st.world.clients) → k.client.confirmed ≡ true
      → IsNext args slot b
      → IsFresh st.out
      → contents st.out ≡ []
      → run_sequence file_operation req st ≡ ok end
      → IsKept args.0 args.1.1.0
          (record slot { sequence_id = args.1.0; contains_data = true })
          b
          end
  unfolding OnOk judged
  run_sequence-IsKept args slot b st end call k confirmed h fresh empty e =
      subst (OnOk (IsKept args.0 args.1.1.0 slot' b))
        (sym (
            run_sequence_lem file_operation req args slot (execute slot') st call k confirmed
              (judge-IsNext args slot b h))
          ∙ e)
        (execute-IsKept file_operation req law args slot' b
          (judged file_operation req args k.client st call) refl h.kept h.valid fresh empty)
    where
      slot' : Slot
      slot' = record slot { sequence_id = args.1.0; contains_data = true }

  -- A call with the next number of a slot with a buffer, which asks to keep its reply, ends. Then the
  -- same call again, with the clients as the first left them and the client still there and confirmed,
  -- succeeds with the old bytes of the slot and the reply of the first call, and leaves the files
  -- alone.
  pub run_sequence-retry :
      (args : Val sequence4args) (slot : Slot) (b : Buf) (st end again : State F)
      → Calls file_operation req args st
      → (k : Keeps args.0 args.1.1.0 slot st.world.clients) → k.client.confirmed ≡ true
      → IsNext args slot b
      → IsFresh st.out
      → contents st.out ≡ []
      → run_sequence file_operation req st ≡ ok end
      → Calls file_operation req args again
      → again.world.clients ≡ end.world.clients
      → (c : Client) → lookup (client_id_from_session_id args.0) again.world.clients ≡ some c
      → c.confirmed ≡ true
      → IsValid again.out
      → (last : State F) × (run_sequence file_operation req again ≡ ok last)
        × (contents last.out ≡ contents again.out ++ (contents b ++ contents end.out))
        × (last.world.files ≡ again.world.files)
  run_sequence-retry args slot b st end again call k confirmed h fresh empty e call' same c here
        still u =
      let kept = run_sequence-IsKept args slot b st end call k confirmed h fresh empty e in
      let there =
        subst
          (Keeps args.0 args.1.1.0
            (record slot { sequence_id = args.1.0; contains_data = true; buf = some kept.copied }))
          (sym same)
          (kept.there c (ap (lookup (client_id_from_session_id args.0)) (sym same) ∙ here)) in
      let r =
        run_sequence_again file_operation req args
          (record slot { sequence_id = args.1.0; contains_data = true; buf = some kept.copied })
          kept.copied again call' there
          (ap (λ (d : Client). d.confirmed) (some_inj (sym there.found ∙ here)) ∙ still) refl refl
          refl kept.valid u in
      (r.end, r.ran, r.bytes ∙ ap (λ p. contents again.out ++ p) kept.bytes, r.same_files)
