-- ===== src/Mux/Outcome.antt =====
-- mux_v4.go: every way that a compound may end.
use nfs4go.Common.{
  ℕ, ◌≡◌, refl, ◌∙◌, Bool, true, false, ◌&&◌, Bool-cases, inl, inr, List, [], ◌∷◌, ◌++◌, append-nil,
  Option, none, some, ◌==◌, if◌then◌else◌, arith, Result, ok, err, panic, stuck,
}
use nfs4go.Bufpool.{Buf, write, copy}
use nfs4go.Bufpool.Contents.{contents}
use nfs4go.Clients.Client.{Client, Slot, get_slot, client_id_from_session_id}
use nfs4go.Clients.Table.{Clients, get}
use nfs4go.Xdr.Words.{put_uint32}
use nfs4go.Xdr.Codec.{encode_all}
use nfs4go.Msg.Status.{
  op_not_in_session, not_only_op, deadsession, retry_uncached_rep, seq_misordered,
}
use nfs4go.Mux.State.{Request, State, Handler}
use nfs4go.Mux.Output.{write_all, write_header, write_header_and_single_operation}
use nfs4go.Mux.Dispatch.{contains}
use nfs4go.Mux.Run.{
  refuse, put_slot, Verdict, replay, refused, execute, nil_buffer, judge, cached, run_after,
  keep_reply, finish_sequence,
}
use nfs4go.Mux.Appends.{IsFresh, Appends, write-Appends, Appends-trans, header_bytes}
use nfs4go.Mux.Answers.{Answers, op_bytes}
use nfs4go.Mux.Complete.{OnOk, bind-OnOk, unless-OnOk, IsReply, run_after-IsReply}

-- The statuses of a compound whose first operation is refused.
abbrev pub refusals : List ℕ
refusals = op_not_in_session ∷ not_only_op ∷ deadsession ∷ retry_uncached_rep ∷ seq_misordered ∷ []

-- A reply that a slot keeps: of a client that `Get` finds in the table, and of a session and a slot
-- that `GetSlot` finds in the client.
pub record FromSlot (held : Clients) (b : Buf) : Type 0 where
  pub now : ℕ
  pub session_id : List ℕ
  pub slot_id : ℕ
  pub client : Client
  pub held' : Clients
  pub slot : Slot
  pub got : get now (client_id_from_session_id session_id) held ≡ some (client, held')
  pub found : get_slot session_id slot_id client ≡ some slot
  pub full : slot.contains_data ≡ true
  pub kept : slot.buf ≡ some b

-- Its operations ran, or the reply has the code of the first operation with a refusal, or it is the
-- reply that a slot keeps. The last needs a minor version above 0.
pub data Outcome (req : Request) (held : Clients) (out out' : Buf) : Type 0 where
  complete : IsReply req out' → Outcome req held out out'
  turned_away :
      (op status : ℕ)
      → contains refusals status ≡ true
      → contents out' ≡ header_bytes req 1 status ++ op_bytes op status []
      → Outcome req held out out'
  repeated : (b : Buf) → FromSlot held b → copy b out ≡ ok out' → Outcome req held out out'

-- A verdict that refuses gives one of the refusals, and one that repeats has a reply of a slot.
unfoldable pub Permits : Clients → Verdict → Type 0
Permits held (replay b) = FromSlot held b
Permits held (refused status) = contains refusals status ≡ true
Permits held (execute slot) = Unit
Permits held nil_buffer = Unit

module _ (held : Clients) where
  cached-Permits :
      (o : Option Buf) → ((b : Buf) → o ≡ some b → FromSlot held b) → Permits held (cached o)
  unfolding cached Permits
  cached-Permits none h = tt
  cached-Permits (some b) h = h b refl

  if-Permits :
      (t : Bool) (v w : Verdict)
      → (t ≡ true → Permits held v)
      → Permits held w
      → Permits held (if t then v else w)
  if-Permits true v w p q = p refl
  if-Permits false v w p q = q

  either-Permits :
      (t : Bool) (v w : Verdict)
      → Permits held v
      → Permits held w
      → Permits held (if t then v else w)
  either-Permits t v w p q = if-Permits t v w (λ e. p) q

  uncached-Permits : Permits held (refused retry_uncached_rep)
  unfolding Permits contains
  uncached-Permits = refl

  misordered-Permits : Permits held (refused seq_misordered)
  unfolding Permits contains
  misordered-Permits = refl

  execute-Permits : (slot : Slot) → Permits held (execute slot)
  unfolding Permits
  execute-Permits slot = tt

  pub judge-Permits :
      (sequence_id : ℕ) (cache_this : Bool) (slot : Slot)
      → ((b : Buf) → slot.contains_data ≡ true → slot.buf ≡ some b → FromSlot held b)
      → Permits held (judge sequence_id cache_this slot)
  unfolding judge
  judge-Permits sequence_id cache_this slot from =
      if-Permits (slot.sequence_id == sequence_id && slot.contains_data) (cached slot.buf) _
        (λ both. cached-Permits slot.buf (λ b kept. from b (full both) kept))
        (search (either-Permits, uncached-Permits, misordered-Permits, execute-Permits))
    where
      full :
          (slot.sequence_id == sequence_id && slot.contains_data) ≡ true → slot.contains_data ≡ true
      full h = ground arith

unfoldable pub Ends : {F : Type 0} → Request → Clients → Buf → Result (State F) → Type 0
Ends req held out r = OnOk (λ s. Outcome req held out s.out) r

module _ {F : Type 0} (req : Request) (held : Clients) where
  pub refuse-Ends :
      (op status : ℕ) (st : State F)
      → IsFresh st.out
      → contents st.out ≡ []
      → contains refusals status ≡ true
      → Ends req held st.out (refuse req op status st)
  unfolding Ends OnOk write_header_and_single_operation write_header write_all encode_all
      header_bytes op_bytes
  refuse-Ends op status st h empty known =
      turned_away op status known
        (both.appended ∙ rw (empty, append-nil (put_uint32 op ++ (put_uint32 status ++ []))))
    where
      head : Appends (header_bytes req 1 status) st.out (write (header_bytes req 1 status) st.out)
      head = write-Appends _ st.out h

      both :
          Appends
            (header_bytes req 1 status ++ (put_uint32 op ++ (put_uint32 status ++ [])))
            st.out
            (write
              (put_uint32 op ++ (put_uint32 status ++ []))
              (write (header_bytes req 1 status) st.out))
      both = Appends-trans _ _ st.out _ _ head (write-Appends _ _ head.fresh)

module _ {F : Type 0} (file_operation : ℕ → Handler F) (req : Request) (held : Clients)
    (law : (n : ℕ) (s : State F) → IsFresh s.out → Answers s.out (file_operation n s)) where
  pub run_after-Ends :
      (first : Handler F) (st : State F)
      → ((s : State F) → IsFresh s.out → Answers s.out (first s))
      → IsFresh st.out
      → contents st.out ≡ []
      → Ends req held st.out (run_after file_operation req first st)
  unfolding Ends OnOk
  run_after-Ends first st first_law h empty =
      weaken (run_after file_operation req first st)
        (run_after-IsReply file_operation req first st law first_law h empty)
    where
      weaken : (r : Result (State F)) → OnOk (λ s. IsReply req s.out) r → Ends req held st.out r
      weaken (ok s) reply = complete reply
      weaken (err e) reply = tt
      weaken panic reply = tt
      weaken stuck reply = tt

  keep_reply-Ends :
      (out : Buf) (session_id : List ℕ) (slot_id : ℕ) (slot : Slot) (b : Buf) (st : State F)
      → Outcome req held out st.out
      → Ends req held out (keep_reply file_operation req session_id slot_id slot b st)
  unfolding Ends OnOk keep_reply
  keep_reply-Ends out session_id slot_id slot b st done = unless-OnOk _ st.handed_back _ (
      bind-OnOk _ (copy st.out b) _ (λ b' e.
        bind-OnOk _ (put_slot session_id slot_id (record slot { buf = some b' }) st.world.clients) _
          (λ cs e'. done)))

  pub finish_sequence-Ends :
      (out : Buf) (session_id : List ℕ) (slot_id : ℕ) (slot : Slot) (b : Option Buf) (st : State F)
      → Outcome req held out st.out
      → Ends req held out (finish_sequence file_operation req session_id slot_id slot b st)
  unfolding Ends OnOk finish_sequence
  finish_sequence-Ends out session_id slot_id slot none st done =
      elim (Bool-cases slot.contains_data) [ inl t ↦ rw (t, OnOk) tt | inr t ↦ rw (t, OnOk) done ]
  finish_sequence-Ends out session_id slot_id slot (some b) st done =
      either slot.contains_data _ (ok st) (keep_reply-Ends out session_id slot_id slot b st done)
        done
    where
      either :
          (t : Bool) (x y : Result (State F))
          → Ends req held out x
          → Ends req held out y
          → Ends req held out (if t then x else y)
      either true x y p q = p
      either false x y p q = q
