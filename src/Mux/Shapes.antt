-- ===== src/Mux/Shapes.antt =====
-- mux_v4.go: the shape of a reply: its operation code, and the layout of what follows NFS4_OK.
use nfs4go.Common.{
  ℕ, ◌≡◌, ◌⊎◌, inl, inr, refl, sym, Bool, true, false, List, [], ◌∷◌, ◌++◌, ok-injective, ltb, ◌==◌,
  if◌then◌else◌, Result, ok, err, panic, stuck, ◌>>=◌,
}
use nfs4go.Bufpool.{Buf, write}
use nfs4go.Xdr.Words.{put_uint32}
use nfs4go.Xdr.Layout.{Layout, Fields, Val, Vals, ◌▸◌, end}
use nfs4go.Xdr.Codec.{encode_all, decode}
use nfs4go.Msg.Replies.{
  setclientid4resok, exchange_id4resok, create_session4resok, secinfo4resok, getfh4resok,
}
use nfs4go.Msg.Ops.{
  op_setclientid, op_setclientid_confirm, op_exchange_id, op_create_session, op_reclaim_complete,
  op_destroy_session, op_destroy_clientid, op_getfh, op_savefh, op_restorefh, op_renew, op_secinfo,
  op_secinfo_no_name,
}
use nfs4go.Msg.Status.{nfs4_ok}
use nfs4go.Mux.State.{Request, World, State, from_buf, read_args, look_at_clock}
use nfs4go.Mux.Output.{write_all, operation_response, answer}
use nfs4go.Mux.Appends.{IsFresh, Appends, write-Appends, Appends-trans}
use nfs4go.Mux.Answers.{Answers, op_bytes}

-- The code in the reply of each operation that is not on files, and the layout of its results. The code
-- is that of the operation, but for RENEW above the minor version 0.
unfoldable pub form_of : Request → ℕ → ℕ × Fields
form_of req op =
    if op == op_setclientid
    then (op_setclientid, setclientid4resok ▸ end)
    else (if op == op_setclientid_confirm
        then (op_setclientid_confirm, end)
        else (if op == op_exchange_id
            then (op_exchange_id, exchange_id4resok ▸ end)
            else (if op == op_create_session
                then (op_create_session, create_session4resok ▸ end)
                else (if op == op_reclaim_complete
                    then (op_reclaim_complete, end)
                    else (if op == op_destroy_session
                        then (op_destroy_session, end)
                        else (if op == op_destroy_clientid
                            then (op_destroy_clientid, end)
                            else (if op == op_getfh
                                then (op_getfh, getfh4resok ▸ end)
                                else (if op == op_savefh
                                    then (op_savefh, end)
                                    else (if op == op_restorefh
                                        then (op_restorefh, end)
                                        else (if op == op_renew
                                            then (if ltb 0 req.minor_ver
                                                then (op_setclientid, end)
                                                else (op_renew, end))
                                            else (if op == op_secinfo
                                                then (op_secinfo, secinfo4resok ▸ end)
                                                else (if op == op_secinfo_no_name
                                                    then (op_secinfo_no_name, secinfo4resok ▸ end)
                                                    else (op, end)))))))))))))

-- One reply with the code of the form and this status is added. With NFS4_OK the encoding of results of
-- its layout follows, and otherwise nothing; in an operation without results nothing ever follows.
pub record Shaped (form : ℕ × Fields) (out : Buf) (status : ℕ) (out' : Buf) : Type 0 where
  pub body : List ℕ
  pub appended : Appends (op_bytes form.0 status body) out out'
  pub shape :
      ((body ≡ []) × ((form.1 ≡ end) ⊎ ((status == nfs4_ok) ≡ false)))
      ⊎ ((status ≡ nfs4_ok) × (vs : Vals form.1) × (encode_all form.1 vs ≡ ok body))

module _ {F : Type 0} where
  -- What holds of the status and the buffer that an operation gives, if it goes on.
  unfoldable pub Ensures : (ℕ → Buf → Type 0) → Result (ℕ × State F) → Type 0
  Ensures P (ok (status, st)) = P status st.out
  Ensures P (err e) = Unit
  Ensures P panic = Unit
  Ensures P stuck = Unit

  pub Ensures-Answers :
      (form : ℕ × Fields) (out : Buf) (r : Result (ℕ × State F))
      → Ensures (Shaped form out) r
      → Answers out r
  unfolding Ensures Answers
  Ensures-Answers form out (ok (status, st)) h = record {
    op = form.0;
    body = h.body;
    appended = h.appended;
  }
  Ensures-Answers form out (err e) h = tt
  Ensures-Answers form out panic h = tt
  Ensures-Answers form out stuck h = tt

  replied :
      (op status : ℕ) (fs results : Fields) (st : State F) (encoded : Result (List ℕ))
      → ((body : List ℕ)
          → encoded ≡ ok body
          → ((body ≡ []) × ((results ≡ end) ⊎ ((status == nfs4_ok) ≡ false)))
            ⊎ ((status ≡ nfs4_ok) × (vs : Vals results) × (encode_all results vs ≡ ok body)))
      → IsFresh st.out
      → Ensures (Shaped (op, results) st.out) (do
        (status', out') ← (do
          out'' ← (do
            bs ← encoded
            ok (write bs (write (put_uint32 op ++ (put_uint32 status ++ [])) st.out)))
          ok (status, out''))
        ok (status', record st { out = out' }))
  unfolding op_bytes Ensures
  replied op status fs results st (ok bs) k h =
      let first = write-Appends (put_uint32 op ++ (put_uint32 status ++ [])) st.out h in
      record {
        body = bs;
        appended = Appends-trans _ bs st.out _ _ first (write-Appends bs _ first.fresh);
        shape = k bs refl;
      }
  replied op status fs results st (err e) k h = tt
  replied op status fs results st panic k h = tt
  replied op status fs results st stuck k h = tt

  pub plain-Shaped :
      (op status : ℕ) (st : State F)
      → IsFresh st.out
      → Ensures (Shaped (op, end) st.out) (answer op status end tt st)
  unfolding answer operation_response write_all encode_all
  plain-Shaped op status st h =
      replied op status end end st (ok []) (λ body e. inl (sym (ok-injective e), inl refl)) h

  pub refused-Shaped :
      (op status : ℕ) (results : Fields) (st : State F)
      → (status == nfs4_ok) ≡ false
      → IsFresh st.out
      → Ensures (Shaped (op, results) st.out) (answer op status end tt st)
  unfolding answer operation_response write_all encode_all
  refused-Shaped op status results st bad h =
      replied op status end results st (ok []) (λ body e. inl (sym (ok-injective e), inr bad)) h

  pub results-Shaped :
      (op : ℕ) (results : Fields) (vs : Vals results) (st : State F)
      → IsFresh st.out
      → Ensures (Shaped (op, results) st.out) (answer op nfs4_ok results vs st)
  unfolding answer operation_response write_all encode_all
  results-Shaped op results vs st h =
      replied op nfs4_ok results results st (encode_all results vs) (λ body e. inr (refl, vs, e)) h

  pub if-Ensures :
      (P : ℕ → Buf → Type 0) (t : Bool) (x y : Result (ℕ × State F))
      → Ensures P x
      → Ensures P y
      → Ensures P (if t then x else y)
  if-Ensures P true x y a b = a
  if-Ensures P false x y a b = b

  pub select-Ensures :
      (t : Bool) (f g : ℕ × Fields) (out : Buf) (x y : Result (ℕ × State F))
      → Ensures (Shaped f out) x
      → Ensures (Shaped g out) y
      → Ensures (Shaped (if t then f else g) out) (if t then x else y)
  select-Ensures true f g out x y a b = a
  select-Ensures false f g out x y a b = b

  pub bind-Ensures :
      {A : Type 0} (P : ℕ → Buf → Type 0) (r : Result A) (k : A → Result (ℕ × State F))
      → ((a : A) → r ≡ ok a → Ensures P (k a))
      → Ensures P (r >>= k)
  unfolding Ensures
  bind-Ensures P (ok a) k h = h a refl
  bind-Ensures P (err e) k h = tt
  bind-Ensures P panic k h = tt
  bind-Ensures P stuck k h = tt

  pub read_args-Ensures :
      (P : ℕ → Buf → Type 0) (l : Layout) (st : State F)
      → (k : Val l × State F → Result (ℕ × State F))
      → ((args : Val l) (rest : List ℕ) → Ensures P (k (args, record st { input = rest })))
      → Ensures P (read_args l st >>= k)
  unfolding read_args Ensures
  read_args-Ensures P l st k h = after_args (from_buf (decode l st.input))
    where
      after_args :
          (r : Result (Val l × List ℕ))
          → Ensures P ((do (args, rest) ← r; ok (args, record st { input = rest })) >>= k)
      after_args (ok (args, rest)) = h args rest
      after_args (err e) = tt
      after_args panic = tt
      after_args stuck = tt

  pub look_at_clock-Ensures :
      (P : ℕ → Buf → Type 0) (w : World F) (k : ℕ × World F → Result (ℕ × State F))
      → ((now : ℕ) (w' : World F) → Ensures P (k (now, w')))
      → Ensures P (look_at_clock w >>= k)
  unfolding look_at_clock Ensures
  look_at_clock-Ensures P w k h = after_clock w.clock
    where
      after_clock :
          (ticks : List ℕ)
          → Ensures P (
              (elim ticks [ [] ↦ stuck | now ∷ later ↦ ok (now, record w { clock = later }) ])
              >>= k)
      after_clock [] = tt
      after_clock (now ∷ later) = h now (record w { clock = later })
