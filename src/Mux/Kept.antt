-- ===== src/Mux/Kept.antt =====
-- mux_v4.go: SEQUENCE keeps the reply of a compound in its slot.
use nfs4go.Common.{
  ℕ, ◌+◌, ◌%◌, ◌^◌, ◌≡◌, sym, ◌∙◌, subst, true, false, List, [], ◌++◌, some, ◌==◌, if◌then◌else◌,
  Result, ok, ok-injective, arith,
}
use nfs4go.Bufpool.{Buf, copy}
use nfs4go.Bufpool.Contents.{IsValid, contents, contents-copy}
use nfs4go.Common.Assoc.{lookup}
use nfs4go.Clients.Client.{Client, Slot, client_id_from_session_id}
use nfs4go.Clients.Table.{Clients}
use nfs4go.Xdr.Layout.{Val}
use nfs4go.Msg.Args.{sequence4args}
use nfs4go.Mux.State.{Request, State, Handler, with_world, with_clients}
use nfs4go.Mux.Run.{
  execute, judge, run_after, sequence_reply, by_verdict, put_slot, keep_reply, finish_sequence,
}
use nfs4go.Mux.Appends.{IsFresh}
use nfs4go.Mux.Answers.{Answers, answer-Answers}
use nfs4go.Mux.Complete.{OnOk, bind-OnOk, unless-OnOk, IsReply, run_after-IsReply}
use nfs4go.Mux.Slots.{Keeps, put_slot-Keeps}

pub judge_next :
    (sequence_id : ℕ) (slot : Slot) (b : Buf)
    → (slot.sequence_id + 1) % 2 ^ 32 ≡ sequence_id
    → slot.buf ≡ some b
    → judge sequence_id true slot
      ≡ execute (record slot { sequence_id = sequence_id; contains_data = true })
unfolding judge
judge_next sequence_id slot b next kept = rw (other, kept, follows)
  where
    other : (slot.sequence_id == sequence_id) ≡ false
    other = ground arith

    follows : ((slot.sequence_id + 1) % 2 ^ 32 == sequence_id) ≡ true
    follows = ground arith

module _ {F : Type 0} where
  -- What a call that keeps its reply leaves in the table.
  pub record IsKept (session_id : List ℕ) (slot_id : ℕ) (slot : Slot) (b : Buf) (st : State F)
      : Type 0 where
    pub copied : Buf
    pub there :
        (c : Client)
        → lookup (client_id_from_session_id session_id) st.world.clients ≡ some c
        → Keeps session_id slot_id (record slot { buf = some copied }) st.world.clients
    pub valid : IsValid copied
    pub bytes : contents copied ≡ contents b ++ contents st.out

module _ {F : Type 0} (file_operation : ℕ → Handler F) (req : Request) where
  keep_reply-IsKept :
      (session_id : List ℕ) (slot_id : ℕ) (slot : Slot) (b : Buf) (st : State F)
      → IsValid b
      → IsValid st.out
      → OnOk
          (IsKept session_id slot_id slot b)
          (keep_reply file_operation req session_id slot_id slot b st)
  unfolding keep_reply OnOk
  keep_reply-IsKept session_id slot_id slot b st v u =
      let (b', made, valid, bytes, r) = contents-copy st.out b u v in
      unless-OnOk _ st.handed_back _ (
        bind-OnOk _ (copy st.out b) _ (λ copied e.
          bind-OnOk _
            (put_slot session_id slot_id (record slot { buf = some copied }) st.world.clients) _
            (λ cs e'.
              let same = ok-injective (sym made ∙ e) in
              record {
                copied = copied;
                there = put_slot-Keeps session_id slot_id _ st.world.clients cs e';
                valid = subst IsValid same valid;
                bytes = subst (λ c. contents c ≡ contents b ++ contents st.out) same bytes;
              })))

  finish_sequence-IsKept :
      (session_id : List ℕ) (slot_id : ℕ) (slot : Slot) (b : Buf) (st : State F)
      → slot.contains_data ≡ true
      → IsValid b
      → IsValid st.out
      → OnOk
          (IsKept session_id slot_id slot b)
          (finish_sequence file_operation req session_id slot_id slot (some b) st)
  unfolding finish_sequence
  finish_sequence-IsKept session_id slot_id slot b st full v u =
      subst
        (λ t.
          OnOk (IsKept session_id slot_id slot b)
            (if t then keep_reply file_operation req session_id slot_id slot b st else ok st))
        (sym full) (keep_reply-IsKept session_id slot_id slot b st v u)

module _ {F : Type 0} (file_operation : ℕ → Handler F) (req : Request)
    (law : (n : ℕ) (s : State F) → IsFresh s.out → Answers s.out (file_operation n s)) where
  pub execute-IsKept :
      (args : Val sequence4args) (slot : Slot) (b : Buf) (st : State F)
      → slot.contains_data ≡ true
      → slot.buf ≡ some b
      → IsValid b
      → IsFresh st.out
      → contents st.out ≡ []
      → OnOk
          (IsKept args.0 args.1.1.0 slot b)
          (by_verdict file_operation req args (execute slot) st)
  unfolding by_verdict sequence_reply OnOk
  execute-IsKept (session_id, (sequence_id, (slot_id, rest))) slot b st full kept v h empty =
      bind-OnOk _ (put_slot session_id slot_id slot st.world.clients) _ (λ cs e.
        bind-OnOk _ (run_after file_operation req first (started cs)) finish (λ st2 e2.
          subst
            (λ o.
              OnOk (IsKept session_id slot_id slot b)
                (finish_sequence file_operation req session_id slot_id slot o st2))
            (sym kept)
            (finish_sequence-IsKept file_operation req session_id slot_id slot b st2 full v
              (reply cs st2 e2).fresh.valid)))
    where
      first : Handler F
      first = sequence_reply file_operation req (session_id, (sequence_id, (slot_id, rest)))

      finish : State F → Result (State F)
      finish = finish_sequence file_operation req session_id slot_id slot slot.buf

      started : Clients → State F
      started cs = record (with_world st (with_clients st.world cs)) {
        session_id = session_id;
        slot = some slot;
      }

      first-Answers : (s : State F) → IsFresh s.out → Answers s.out (first s)
      first-Answers s fresh = answer-Answers _ _ _ _ s fresh

      reply :
          (cs : Clients) (st2 : State F)
          → run_after file_operation req first (started cs) ≡ ok st2
          → IsReply req st2.out
      reply cs st2 e =
          subst (OnOk (λ s. IsReply req s.out)) e
            (run_after-IsReply file_operation req first (started cs) law first-Answers h empty)
