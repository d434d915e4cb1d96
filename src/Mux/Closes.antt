-- ===== src/Mux/Closes.antt =====
-- mux_v4.go: a CLOSE that is repeated, and the numbers of OPEN.
use nfs4go.Common.{
  ℕ, ◌≡◌, inl, inr, sym, ap, ◌∙◌, true, ==_refl, Option, none, some, Bool-cases, Result, ok, err,
  panic, stuck, >>=-eq-ok, ok-injective,
}
use nfs4go.Attrs.FileId.{file_id}
use nfs4go.Bufpool.{Buf}
use nfs4go.Vfs.{Vfs}
use nfs4go.Worker.State.{File}
use nfs4go.Worker.Files.{is_removed_file, contains, remove_file, remove_found}
use nfs4go.Xdr.Layout.{Fields, Vals, end}
use nfs4go.Msg.Ops.{op_close}
use nfs4go.Msg.Status.{nfs4_ok, bad_seqid, err2status}
use nfs4go.Mux.State.{State}
use nfs4go.Mux.Output.{answer, operation_response, write_all}
use nfs4go.Mux.Files.{Files, Held, reply, with_clients, asked, ask, forgets}
use nfs4go.Mux.OpenFiles.{
  close_body, close_file, closed_reply, if_removed, removes_file, found_file,
}

module _ {v : Vfs} where
  -- A body that ends with a reply gives its status and leaves the worker alone.
  reply_held :
      (op status : ℕ) (fs : Fields) (vs : Vals fs) (h : Held v) (st : State (Files v)) {s : ℕ}
      → {h' : Held v} {st' : State (Files v)} → reply op status fs vs h st ≡ ok (s, h', st')
      → (s ≡ status) × (h' ≡ h)
  unfolding reply answer operation_response
  reply_held op status fs vs h st e =
      let ((s1, st1), p, q) = >>=-eq-ok (answer op status fs vs st) _ e in
      let ((s2, out2), p2, q2) = >>=-eq-ok (operation_response op status fs vs st.out) _ p in
      let (out3, p3, q3) = >>=-eq-ok (write_all _ _ st.out) _ p2 in
      let (out4, p4, q4) = >>=-eq-ok (write_all fs vs out3) _ q3 in
      (
        sym (
            ap (λ (x : ℕ × Buf). x.0) (ok-injective q4)
            ∙ ap (λ (x : ℕ × State (Files v)). x.0) (ok-injective q2)
            ∙ ap (λ (x : ℕ × Held v × State (Files v)). x.0) (ok-injective q)),
        sym (ap (λ (x : ℕ × Held v × State (Files v)). x.1) (ok-injective q)),
      )

  -- The call of `Close` on a file leaves the set of closed files alone, whatever it gives.
  asked_close :
      (other : ℕ × ℕ × ℕ) (r : Result (Unit {0}) × v.Disk) (h : Held v) (st : State (Files v))
      → {s : ℕ} {h' : Held v} {st' : State (Files v)}
      → asked r (λ _. closed_reply other) (λ e. reply op_close (err2status e) end tt) h st
        ≡ ok (s, h', st')
      → h' ≡ h
  unfolding asked closed_reply
  asked_close other (ok a, disk) h st e = (reply_held _ _ _ _ h _ e).1
  asked_close other (err x, disk) h st e = (reply_held _ _ _ _ h _ e).1
  asked_close other (panic, disk) h st e = cc
  asked_close other (stuck, disk) h st e = cc

  close_file_marks :
      (other : ℕ × ℕ × ℕ) (f : File v) (h : Held v) (st : State (Files v))
      → {s : ℕ} {h' : Held v} {st' : State (Files v)} → close_file other f h st ≡ ok (s, h', st')
      → h'.worker.closed_files ≡ h.worker.closed_files
  unfolding close_file forgets ask
  close_file_marks other f h st e =
      ap (λ (x : Held v). x.worker.closed_files) (asked_close other _ _ st e)

  removing :
      (other : ℕ × ℕ × ℕ) (h : Held v) (st : State (Files v)) (f : Option (File v))
      → {h' : Held v} {st' : State (Files v)}
      → (let (g, w, cs) = remove_found (file_id other) h.worker st.world.clients f in
          found_file g
            (close_file other)
            (reply op_close bad_seqid end tt)
            (record h { worker = w })
            (with_clients st cs))
        ≡ ok (nfs4_ok, h', st')
      → is_removed_file (file_id other) h'.worker ≡ true
  unfolding remove_found found_file is_removed_file contains
  removing other h st none e = cc ((reply_held op_close bad_seqid end tt h st e).0)
  removing other h st (some f) e =
      ap (contains (file_id other)) (close_file_marks other f _ _ e) ∙ rw (==_refl (file_id other))

  -- A CLOSE that was answered NFS4_OK left the file marked as closed.
  close_marks :
      (other : ℕ × ℕ × ℕ) (h h' : Held v) (st st' : State (Files v))
      → close_body other h st ≡ ok (nfs4_ok, h', st')
      → is_removed_file (file_id other) h'.worker ≡ true
  unfolding close_body if_removed removes_file remove_file closed_reply
  close_marks other h h' st st' e = elim (Bool-cases (is_removed_file (file_id other) h.worker)) [
    | inl before ↦
        ap (λ (x : Held v). is_removed_file (file_id other) x.worker)
          (reply_held _ _ _ _ h st (rw before at e)).1
        ∙ before
    | inr still_open ↦ removing other h st _ (rw still_open at e)
  ]

  -- A CLOSE that was answered NFS4_OK is answered NFS4_OK when it is repeated in the same worker, with the
  -- same state id, whatever became of the rest of the state: by the reply alone, so that neither the file
  -- system nor the table of clients is touched again.
  pub close_again :
      (other : ℕ × ℕ × ℕ) (h h' : Held v) (st st' st2 : State (Files v))
      → close_body other h st ≡ ok (nfs4_ok, h', st')
      → close_body other h' st2 ≡ closed_reply other h' st2
  unfolding close_body if_removed
  close_again other h h' st st' st2 e = rw (close_marks other h h' st st' e)
