-- ===== src/Mux/Returns.antt =====
-- mux_v4.go: a compound ends, with the operations that its loop should run.
use nfs4go.Common.{
  ℕ, suc, ◌+◌, ◌-◌, ◌^◌, ◌<◌, ◌≡◌, refl, ap, ◌∙◌, subst, true, false, List, [], ◌∷◌, ◌++◌,
  append_assoc, length, ltb, arith, ok, ◌>>=◌,
}
use nfs4go.Bufpool.{Buf, write}
use nfs4go.Bufpool.Contents.{contents}
use nfs4go.Xdr.Words.{put_uint32}
use nfs4go.Xdr.WordLaws.{get-put_uint32}
use nfs4go.Xdr.Layout.{uint32}
use nfs4go.Xdr.Codec.{decode}
use nfs4go.Msg.Status.{nfs4_ok}
use nfs4go.Mux.State.{Request, State, Handler, from_buf, read_args}
use nfs4go.Mux.Output.{write_header, write_all, rewrite_header_if_needed}
use nfs4go.Mux.Dispatch.{do_operation}
use nfs4go.Mux.Run.{is_fatal, operation, run_ops, run_after, first_operation, run}
use nfs4go.Mux.Appends.{IsFresh, Appends, write-Appends, header_bytes, encode_all-header}
use nfs4go.Mux.Rewrites.{rewrite_header_lem, rewrite_header_returns}
use nfs4go.Mux.Answers.{Answered, Answers, op_bytes}
use nfs4go.Mux.Handlers.{do_operation-Answers}
use nfs4go.Mux.Loop.{Ran, Runs, joined, run_ops-Runs}

module _ {F : Type 0} (file_operation : ℕ → Handler F) (req : Request) where
  -- One operation: its code comes next in the call, and it gives a status in this state.
  pub record Serves (op : ℕ) (st : State F) (status : ℕ) (st' : State F) : Type 0 where
    pub rest : List ℕ
    pub small : op < 2 ^ 32
    pub next : st.input ≡ put_uint32 op ++ rest
    pub ran : do_operation file_operation req op (record st { input = rest }) ≡ ok (status, st')

  -- The operations of these codes, after the status `last`: they run one after the other, each in the
  -- state that the one before left, up to the first fatal status or to the end. The last status, the
  -- number that ran, and the last state.
  pub data ServesAll : List ℕ → ℕ → State F → ℕ → ℕ → State F → Type 0 where
    at_end : (last : ℕ) (st : State F) → ServesAll [] last st last 0 st
    at_fatal :
        (op : ℕ) (ops : List ℕ) (last : ℕ) (st : State F)
        → is_fatal last ≡ true
        → ServesAll (op ∷ ops) last st last 0 st
    one_more :
        (op : ℕ) (ops : List ℕ) (last status final n : ℕ) (st st' end : State F)
        → is_fatal last ≡ false
        → Serves op st status st'
        → ServesAll ops status st' final n end
        → ServesAll (op ∷ ops) last st final (suc n) end

  -- `Run` ends after `n` operations with the state `st`, but for its header: it has their number and the
  -- last status, and the replies behind it are as the operations left them.
  pub record Ended (n last : ℕ) (begun st : State F) : Type 0 where
    pub end : State F
    pub ran : run file_operation req begun ≡ ok end
    pub same : end ≡ record st { out = end.out }
    pub replies : List ℕ
    pub before : contents st.out ≡ header_bytes req req.ops_count nfs4_ok ++ replies
    pub after : contents end.out ≡ header_bytes req n last ++ replies

  read_op :
      (op : ℕ) (bs : List ℕ) (st : State F)
      → op < 2 ^ 32
      → st.input ≡ put_uint32 op ++ bs
      → read_args uint32 st ≡ ok (op, record st { input = bs })
  unfolding read_args from_buf decode
  read_op op bs st small e = rw (e, get-put_uint32 op bs small) refl

  operation-Serves :
      (op status : ℕ) (st st' : State F)
      → Serves op st status st'
      → operation file_operation req st ≡ ok (status, st')
  unfolding operation
  operation-Serves op status st st' h = rw (read_op op h.rest st h.small h.next) h.ran

  run_ops-ServesAll :
      (ops : List ℕ) (last final n executed : ℕ) (st end : State F)
      → ServesAll ops last st final n end
      → run_ops file_operation req (length ops) last executed st ≡ ok (final, executed + n, end)
  unfolding run_ops
  run_ops-ServesAll _ _ _ _ executed _ _ (at_end last st) = ap (λ k. ok (last, k, st)) (omega arith)
  run_ops-ServesAll _ _ _ _ executed _ _ (at_fatal op ops last st fatal) =
      rw (fatal, run_ops) (ap (λ k. ok (last, k, st)) (omega arith))
  run_ops-ServesAll _ _ _ _ executed _ _
        (one_more op ops last status final n st st' end live one more) =
      rw (live, run_ops, operation-Serves op status st st' one)
        (run_ops-ServesAll ops status final n (executed + 1) st' end more
          ∙ ap (λ k. ok (final, k, end)) (omega arith))

  write_header_returns :
      (n s : ℕ) (b : Buf) → write_header req n s b ≡ ok (write (header_bytes req n s) b)
  unfolding write_header write_all
  write_header_returns n s b = ap (λ r. r >>= λ bs. ok (write bs b)) (encode_all-header req n s)

  abbrev pub headed : State F → State F
  headed st = record st { out = write (header_bytes req req.ops_count nfs4_ok) st.out }

  -- With operations on files that add one reply each, on an empty buffer, in minor version 0: where the
  -- announced operations, one after the other, give statuses up to a fatal one or the end, `Run` ends.
  -- It ran just these, in the state they left, and their number and last status head the replies.
  pub run-Ended :
      ((n : ℕ) (s : State F) → IsFresh s.out → Answers s.out (file_operation n s))
      → (first : ℕ) (ops : List ℕ) (status last n : ℕ) (st st1 st2 : State F) → req.minor_ver ≡ 0
      → req.ops_count ≡ suc (length ops)
      → IsFresh st.out
      → contents st.out ≡ []
      → Serves first (headed st) status st1
      → ServesAll ops status st1 last n st2
      → Ended (suc n) last st st2
  unfolding run first_operation run_after Answers Runs
  run-Ended law first ops status last n st st1 st2 minor count h empty one more = record {
    end = record st2 { out = rewritten.0 };
    ran =
        rw
          (
            read_op first one.rest st one.small one.next,
            none_above,
            write_header_returns req.ops_count nfs4_ok st.out,
            one.ran,
            loop,
            rewritten.1,
          )
          refl;
    same = refl;
    replies = replies;
    before = before;
    after =
        (rewrite_header_lem req (suc n) last replies st2.out rewritten.0 ran.appended.fresh before
          rewritten.1).1;
  }
    where
      none_above : ltb 0 req.minor_ver ≡ false
      none_above = ground arith

      loop : run_ops file_operation req (req.ops_count - 1) status 1 st1 ≡ ok (last, suc n, st2)
      loop =
          let others : req.ops_count - 1 ≡ length ops = omega (arith, count) in
          ap (λ k. run_ops file_operation req k status 1 st1) others
          ∙ run_ops-ServesAll ops status last n 1 st1 st2 more
          ∙ ap (λ k. ok (last, k, st2)) (omega arith)

      head : Appends (header_bytes req req.ops_count nfs4_ok) st.out (headed st).out
      head = write-Appends _ st.out h

      answer : Answered status (headed st).out st1.out
      answer = subst (Answers (headed st).out) one.ran (
          do_operation-Answers file_operation req first (record (headed st) { input = one.rest })
            law head.fresh)

      ran : Ran (req.ops_count - 1) status 1 st1.out last (suc n) st2.out
      ran = subst (Runs (req.ops_count - 1) status 1 st1.out) loop (
          run_ops-Runs file_operation req (req.ops_count - 1) status 1 st1 law
            answer.appended.fresh)

      replies : List ℕ
      replies = op_bytes answer.op status answer.body ++ joined ran.replies

      before : contents st2.out ≡ header_bytes req req.ops_count nfs4_ok ++ replies
      before = rw (
        ran.appended.appended,
        answer.appended.appended,
        head.appended,
        empty,
        append_assoc (header_bytes req req.ops_count nfs4_ok)
            (op_bytes answer.op status answer.body) (joined ran.replies),
      )

      rewritten : (b : Buf) × (rewrite_header_if_needed req (suc n) last st2.out ≡ ok b)
      rewritten = rewrite_header_returns req (suc n) last st2.out
