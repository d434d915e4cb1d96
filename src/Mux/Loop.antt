-- ===== src/Mux/Loop.antt =====
-- mux_v4.go: the loop of a compound, and the reply that it makes.
use nfs4go.Common.{
  ℕ, zero, suc, ◌+◌, ◌≡◌, refl, sym, true, false, Bool-cases, inl, inr, List, [], ◌∷◌, ◌++◌,
  append-nil, length, arith, Result, ok, err, panic, stuck, ◌>>=◌,
}
use nfs4go.Bufpool.{Buf}
use nfs4go.Bufpool.Contents.{contents}
use nfs4go.Xdr.Layout.{uint32}
use nfs4go.Mux.State.{Request, State, Handler}
use nfs4go.Mux.Run.{is_fatal, operation, run_ops}
use nfs4go.Mux.Appends.{IsFresh, Appends, Appends-trans}
use nfs4go.Mux.Answers.{Answered, Answers, op_bytes, read_args-Answers}
use nfs4go.Mux.Handlers.{do_operation-Answers}

-- The reply of one operation.
pub record Reply : Type 0 where
  pub op : ℕ
  pub status : ℕ
  pub body : List ℕ

unfoldable pub joined : List Reply → List ℕ
joined [] = []
joined (r ∷ rs) = op_bytes r.op r.status r.body ++ joined rs

unfoldable pub last_of : ℕ → List Reply → ℕ
last_of status [] = status
last_of status (r ∷ rs) = last_of r.status rs

-- After a reply with this status, and with `left` operations left, these and no others follow: the
-- operations stop at the first fatal status, and only there or at the end.
unfoldable pub Stops : ℕ → ℕ → List Reply → Type 0
Stops zero status [] = Unit
Stops zero status (r ∷ rs) = ⊥
Stops (suc left) status [] = is_fatal status ≡ true
Stops (suc left) status (r ∷ rs) = (is_fatal status ≡ false) × Stops left r.status rs

pub record Ran (left status executed : ℕ) (out : Buf) (status' executed' : ℕ) (out' : Buf)
    : Type 0 where
  pub replies : List Reply
  pub appended : Appends (joined replies) out out'
  pub counted : executed' ≡ executed + length replies
  pub last : status' ≡ last_of status replies
  pub stops : Stops left status replies

module _ {F : Type 0} where
  unfoldable pub Runs : ℕ → ℕ → ℕ → Buf → Result (ℕ × ℕ × State F) → Type 0
  Runs left status executed out (ok (status', executed', st)) =
      Ran left status executed out status' executed' st.out
  Runs left status executed out (err e) = Unit
  Runs left status executed out panic = Unit
  Runs left status executed out stuck = Unit

no_more :
    (left status executed : ℕ) (out : Buf)
    → IsFresh out
    → Stops left status []
    → Ran left status executed out status executed out
unfolding joined last_of
no_more left status executed out h stop = record {
  replies = [];
  appended = record { fresh = h; appended = sym (append-nil (contents out)) };
  counted = omega arith;
  last = refl;
  stops = stop;
}

one_more :
    (left status status1 executed status' executed' : ℕ) (out out1 out' : Buf)
    → is_fatal status ≡ false
    → Answered status1 out out1
    → Ran left status1 (executed + 1) out1 status' executed' out'
    → Ran (suc left) status executed out status' executed' out'
unfolding joined last_of Stops
one_more left status status1 executed status' executed' out out1 out' live a more = record {
  replies = record { op = a.op; status = status1; body = a.body } ∷ more.replies;
  appended = Appends-trans _ _ out out1 out' a.appended more.appended;
  counted = omega (arith, more.counted);
  last = more.last;
  stops = (live, more.stops);
}

module _ {F : Type 0} (file_operation : ℕ → Handler F) (req : Request) where
  operation-Answers :
      (st : State F)
      → ((n : ℕ) (s : State F) → IsFresh s.out → Answers s.out (file_operation n s))
      → IsFresh st.out
      → Answers st.out (operation file_operation req st)
  unfolding operation
  operation-Answers st law h =
      read_args-Answers uint32 st _
        (λ op rest. do_operation-Answers file_operation req op (record st { input = rest }) law h)

  continued :
      (left status executed : ℕ) (out : Buf) (r : Result (ℕ × State F))
      → is_fatal status ≡ false
      → Answers out r
      → ((status1 : ℕ) (st1 : State F)
          → IsFresh st1.out
          → Runs left status1
              (executed + 1)
              st1.out
              (run_ops file_operation req left status1 (executed + 1) st1))
      → Runs
          (suc left)
          status
          executed
          out
          (do (status1, st1) ← r; run_ops file_operation req left status1 (executed + 1) st1)
  unfolding Runs Answers
  continued left status executed out (ok (status1, st1)) live a more =
      extended (run_ops file_operation req left status1 (executed + 1) st1)
        (more status1 st1 a.appended.fresh)
    where
      extended :
          (r : Result (ℕ × ℕ × State F))
          → Runs left status1 (executed + 1) st1.out r
          → Runs (suc left) status executed out r
      extended (ok (status', executed', st')) ran =
          one_more left status status1 executed status' executed' out st1.out st'.out live a ran
      extended (err e) ran = tt
      extended panic ran = tt
      extended stuck ran = tt
  continued left status executed out (err e) live a more = tt
  continued left status executed out panic live a more = tt
  continued left status executed out stuck live a more = tt

  pub run_ops-Runs :
      (left status executed : ℕ) (st : State F)
      → ((n : ℕ) (s : State F) → IsFresh s.out → Answers s.out (file_operation n s))
      → IsFresh st.out
      → Runs left status executed st.out (run_ops file_operation req left status executed st)
  unfolding run_ops Runs Stops
  run_ops-Runs zero status executed st law h = no_more 0 status executed st.out h tt
  run_ops-Runs (suc left) status executed st law h = elim (Bool-cases (is_fatal status)) [
    | inl fatal ↦ rw (fatal, run_ops, Runs) (no_more (suc left) status executed st.out h fatal)
    | inr live ↦
        rw (live, run_ops, Runs)
          (continued left status executed st.out (operation file_operation req st) live
            (operation-Answers st law h)
            (λ s1 st1 h1. run_ops-Runs left s1 (executed + 1) st1 law h1))
  ]
