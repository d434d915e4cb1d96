-- ===== src/Mux/Answers.antt =====
-- mux_v4.go: what an operation adds to the reply.
use nfs4go.Common.{
  ℕ, ◌≡◌, refl, Bool, true, false, List, [], ◌∷◌, ◌++◌, if◌then◌else◌, Result, ok, err, panic,
  stuck, ◌>>=◌,
}
use nfs4go.Bufpool.{Buf, write}
use nfs4go.Xdr.Words.{put_uint32}
use nfs4go.Xdr.Layout.{Layout, Fields, Val, Vals}
use nfs4go.Xdr.Codec.{encode_all, decode}
use nfs4go.Mux.State.{World, State, from_buf, read_args, look_at_clock}
use nfs4go.Mux.Output.{write_all, operation_response, answer}
use nfs4go.Mux.Appends.{IsFresh, Appends, write-Appends, Appends-trans}

-- The code of an operation, its status, and the bytes after them.
unfoldable pub op_bytes : ℕ → ℕ → List ℕ → List ℕ
op_bytes op status body = (put_uint32 op ++ (put_uint32 status ++ [])) ++ body

pub record Answered (status : ℕ) (out out' : Buf) : Type 0 where
  pub op : ℕ
  pub body : List ℕ
  pub appended : Appends (op_bytes op status body) out out'

module _ {F : Type 0} where
  -- What an operation promises: if it goes on, it added one reply, with the status it gives.
  unfoldable pub Answers : Buf → Result (ℕ × State F) → Type 0
  Answers out (ok (status, st)) = Answered status out st.out
  Answers out (err e) = Unit
  Answers out panic = Unit
  Answers out stuck = Unit

  replied :
      (op status : ℕ) (st : State F) (encoded : Result (List ℕ))
      → IsFresh st.out
      → Answers st.out (do
        (status', out') ← (do
          out'' ← (do
            bs ← encoded
            ok (write bs (write (put_uint32 op ++ (put_uint32 status ++ [])) st.out)))
          ok (status, out''))
        ok (status', record st { out = out' }))
  unfolding op_bytes Answers
  replied op status st (ok bs) h =
      let first = write-Appends (put_uint32 op ++ (put_uint32 status ++ [])) st.out h in
      record {
        op = op;
        body = bs;
        appended = Appends-trans _ bs st.out _ _ first (write-Appends bs _ first.fresh);
      }
  replied op status st (err e) h = tt
  replied op status st panic h = tt
  replied op status st stuck h = tt

  pub answer-Answers :
      (op status : ℕ) (fs : Fields) (vs : Vals fs) (st : State F)
      → IsFresh st.out
      → Answers st.out (answer op status fs vs st)
  unfolding answer operation_response write_all encode_all Answers
  answer-Answers op status fs vs st h = replied op status st (encode_all fs vs) h

  pub if-Answers :
      (t : Bool) (out : Buf) (x y : Result (ℕ × State F))
      → Answers out x
      → Answers out y
      → Answers out (if t then x else y)
  unfolding Answers
  if-Answers true out x y a b = a
  if-Answers false out x y a b = b

  pub bind-Answers :
      {A : Type 0} (r : Result A) (out : Buf) (k : A → Result (ℕ × State F))
      → ((a : A) → r ≡ ok a → Answers out (k a))
      → Answers out (r >>= k)
  unfolding Answers
  bind-Answers (ok a) out k h = h a refl
  bind-Answers (err e) out k h = tt
  bind-Answers panic out k h = tt
  bind-Answers stuck out k h = tt

  after_args :
      (l : Layout) (r : Result (Val l × List ℕ)) (st : State F)
      → (k : Val l × State F → Result (ℕ × State F))
      → ((args : Val l) (rest : List ℕ) → Answers st.out (k (args, record st { input = rest })))
      → Answers st.out ((do (args, rest) ← r; ok (args, record st { input = rest })) >>= k)
  unfolding Answers
  after_args l (ok (args, rest)) st k h = h args rest
  after_args l (err e) st k h = tt
  after_args l panic st k h = tt
  after_args l stuck st k h = tt

  pub read_args-Answers :
      (l : Layout) (st : State F) (k : Val l × State F → Result (ℕ × State F))
      → ((args : Val l) (rest : List ℕ) → Answers st.out (k (args, record st { input = rest })))
      → Answers st.out (read_args l st >>= k)
  unfolding read_args Answers
  read_args-Answers l st k h = after_args l (from_buf (decode l st.input)) st k h

  after_clock :
      (out : Buf) (ticks : List ℕ) (w : World F) (k : ℕ × World F → Result (ℕ × State F))
      → ((now : ℕ) (w' : World F) → Answers out (k (now, w')))
      → Answers out
          ((elim ticks [ [] ↦ stuck | now ∷ later ↦ ok (now, record w { clock = later }) ]) >>= k)
  unfolding Answers
  after_clock out [] w k h = tt
  after_clock out (now ∷ later) w k h = h now (record w { clock = later })

  pub look_at_clock-Answers :
      (out : Buf) (w : World F) (k : ℕ × World F → Result (ℕ × State F))
      → ((now : ℕ) (w' : World F) → Answers out (k (now, w')))
      → Answers out (look_at_clock w >>= k)
  unfolding look_at_clock Answers
  look_at_clock-Answers out w k h = after_clock out w.clock w k h
