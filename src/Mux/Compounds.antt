-- ===== src/Mux/Compounds.antt =====
-- mux_v4.go: the replies of `Run`.
use nfs4go.Common.{refl, ℕ, ◌≡◌, subst, [], ok}
use nfs4go.Bufpool.Contents.{contents}
use nfs4go.Xdr.Layout.{uint32}
use nfs4go.Mux.State.{Request, State, Handler}
use nfs4go.Mux.Run.{run}
use nfs4go.Mux.Appends.{IsFresh}
use nfs4go.Mux.Answers.{Answers}
use nfs4go.Mux.Complete.{OnOk}
use nfs4go.Mux.Outcome.{Outcome, Ends}
use nfs4go.Mux.Endings.{read_args-Ends, first_operation-Ends}

module _ {F : Type 0} (file_operation : ℕ → Handler F) (req : Request)
    (law : (n : ℕ) (s : State F) → IsFresh s.out → Answers s.out (file_operation n s)) where
  run-Ends :
      (st : State F)
      → IsFresh st.out
      → contents st.out ≡ []
      → Ends req st.world.clients st.out (run file_operation req st)
  unfolding run
  run-Ends st h empty =
      read_args-Ends file_operation req st.world.clients law uint32 st _ (λ op rest.
        first_operation-Ends file_operation req st.world.clients law op (record st { input = rest })
          refl h empty)

  -- On an empty buffer, and with operations on files that add one reply each, what `Run` gives is one
  -- of three: a header with the number of replies and the last status, and the replies up to the first
  -- fatal one or the end; one refusal; or a copy of the reply that a slot of a client in the table keeps.
  pub run-Outcome :
      (st st' : State F)
      → IsFresh st.out
      → contents st.out ≡ []
      → run file_operation req st ≡ ok st'
      → Outcome req st.world.clients st.out st'.out
  unfolding Ends OnOk
  run-Outcome st st' h empty e = subst (Ends req st.world.clients st.out) e (run-Ends st h empty)
