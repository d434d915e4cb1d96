-- ===== src/Mux/Complete.antt =====
-- mux_v4.go: the reply of a compound that runs its operations.
use nfs4go.Common.{
  ℕ, suc, ◌-◌, ◌≡◌, refl, ap, ◌∙◌, subst, List, [], ◌∷◌, ◌++◌, append_assoc, length, arith, Bool,
  true, false, if◌then◌else◌, Result, ok, err, panic, stuck, ◌>>=◌,
}
use nfs4go.Bufpool.{Buf}
use nfs4go.Bufpool.Contents.{contents}
use nfs4go.Msg.Status.{nfs4_ok}
use nfs4go.Mux.State.{Request, State, Handler}
use nfs4go.Mux.Output.{write_header, rewrite_header_if_needed}
use nfs4go.Mux.Run.{run_ops, run_after}
use nfs4go.Mux.Appends.{IsFresh, Appends, header_bytes, write_header-Appends}
use nfs4go.Mux.Answers.{Answered, Answers, op_bytes}
use nfs4go.Mux.Rewrites.{rewrite_header_lem}
use nfs4go.Mux.Loop.{Reply, joined, last_of, Stops, Ran, Runs, run_ops-Runs}

-- What holds of a result that is there.
unfoldable pub OnOk : {A : Type 0} → (A → Type 0) → Result A → Type 0
OnOk P (ok a) = P a
OnOk P (err e) = Unit
OnOk P panic = Unit
OnOk P stuck = Unit

pub bind-OnOk :
    {A B : Type 0} (P : B → Type 0) (r : Result A) (k : A → Result B)
    → ((a : A) → r ≡ ok a → OnOk P (k a))
    → OnOk P (r >>= k)
unfolding OnOk
bind-OnOk P (ok a) k h = h a refl
bind-OnOk P (err e) k h = tt
bind-OnOk P panic k h = tt
bind-OnOk P stuck k h = tt

pub unless-OnOk :
    {A : Type 0} (P : A → Type 0) (t : Bool) (r : Result A)
    → OnOk P r
    → OnOk P (if t then stuck else r)
unfolding OnOk
unless-OnOk P true r h = tt
unless-OnOk P false r h = h

-- The reply of a compound: the header with the number of the replies and the last status, and the
-- replies in order.
pub record IsReply (req : Request) (out : Buf) : Type 0 where
  pub fresh : IsFresh out
  pub first : Reply
  pub others : List Reply
  pub stops : Stops (req.ops_count - 1) first.status others
  pub bytes :
      contents out
      ≡ header_bytes req (suc (length others)) (last_of first.status others)
        ++ joined (first ∷ others)

finished :
    (req : Request) (status last executed : ℕ) (out header out1 out2 out' : Buf)
    → contents out ≡ []
    → Appends (header_bytes req req.ops_count nfs4_ok) out header
    → Answered status header out1
    → Ran (req.ops_count - 1) status 1 out1 last executed out2
    → rewrite_header_if_needed req executed last out2 ≡ ok out'
    → IsReply req out'
unfolding joined
finished req status last executed out header out1 out2 out' empty h a ran e = record {
  fresh = rewritten.0;
  first = record { op = a.op; status = status; body = a.body };
  others = ran.replies;
  stops = ran.stops;
  bytes =
      rewritten.1
      ∙ ap (λ n. header_bytes req n last ++ whole) counted
      ∙ ap (λ s. header_bytes req (suc (length ran.replies)) s ++ whole) ran.last;
}
  where
    whole : List ℕ
    whole = op_bytes a.op status a.body ++ joined ran.replies

    counted : executed ≡ suc (length ran.replies)
    counted = omega (arith, ran.counted)

    before : contents out2 ≡ header_bytes req req.ops_count nfs4_ok ++ whole
    before = rw (
      ran.appended.appended,
      a.appended.appended,
      h.appended,
      empty,
      append_assoc (header_bytes req req.ops_count nfs4_ok) (op_bytes a.op status a.body)
          (joined ran.replies),
    )

    rewritten : IsFresh out' × (contents out' ≡ header_bytes req executed last ++ whole)
    rewritten = rewrite_header_lem req executed last whole out2 out' ran.appended.fresh before e

module _ {F : Type 0} (file_operation : ℕ → Handler F) (req : Request) where
  pub run_after-IsReply :
      (first : Handler F) (st : State F)
      → ((n : ℕ) (s : State F) → IsFresh s.out → Answers s.out (file_operation n s))
      → ((s : State F) → IsFresh s.out → Answers s.out (first s))
      → IsFresh st.out
      → contents st.out ≡ []
      → OnOk (λ s. IsReply req s.out) (run_after file_operation req first st)
  unfolding run_after Answers Runs OnOk
  run_after-IsReply first st law first_law h empty =
      bind-OnOk _ (write_header req req.ops_count nfs4_ok st.out) _ (λ header e0.
        let w = write_header-Appends req req.ops_count nfs4_ok st.out header h e0 in
        bind-OnOk _ (first (record st { out = header })) _ (λ one e1.
          let a = subst (Answers header) e1 (first_law (record st { out = header }) w.fresh) in
          bind-OnOk _ (run_ops file_operation req (req.ops_count - 1) one.0 1 one.1) _ (λ all e2.
            let ran = subst (Runs (req.ops_count - 1) one.0 1 one.1.out) e2 (
              run_ops-Runs file_operation req (req.ops_count - 1) one.0 1 one.1 law
                a.appended.fresh) in
            bind-OnOk _ (rewrite_header_if_needed req all.1 all.0 all.2.out) _ (λ out' e3.
              finished req one.0 all.0 all.1 st.out header one.1.out all.2.out out' empty w a ran
                e3))))
