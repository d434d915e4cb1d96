-- ===== src/Mux/OpenReplies.antt =====
-- mux_v4.go: OPEN adds one reply, with the status it gives.
use nfs4go.Common.{
  ℕ, Bool, false, List, Option, none, some, ◌==◌, Error, Result, ok, err, panic, stuck, bad_claim,
  ◌>>=◌,
}
use nfs4go.Bufpool.{Buf}
use nfs4go.Clients.Client.{Client}
use nfs4go.Clients.Table.{Clients}
use nfs4go.Vfs.{Vfs}
use nfs4go.Worker.State.{File, Opened, file_of, Worker}
use nfs4go.Worker.Files.{add_file}
use nfs4go.Xdr.Layout.{Val, end}
use nfs4go.Msg.Args.{open4args}
use nfs4go.Msg.Ops.{op_open}
use nfs4go.Msg.Status.{share_denied, stale_clientid}
use nfs4go.Mux.State.{FileHandle, Request, State}
use nfs4go.Mux.Answers.{Answers, answer-Answers, bind-Answers, look_at_clock-Answers, if-Answers}
use nfs4go.Mux.Files.{Files, Body, Held}
use nfs4go.Mux.OpenPlan.{open_ids, open_plan, Plan, open4_create}
use nfs4go.Mux.Opens.{
  Opening, open_reply, opened_before, unless_open, checks_type, opens, close_after, fail_open,
  handle_of, adds_file, forgets_changed, open_body, open_for, open_client, open_claimed, open_args,
  open_file, deref,
}
use nfs4go.Mux.Bodies.{
  Handles, Replies, BodyAnswers, bind-BodyAnswers, if-Handles, answer-Handles, with_fs-Handles,
  reads-Handles,
}
use nfs4go.Mux.FileHandlers.{bodies}

module _ (v : Vfs) where
  open_reply-Replies : (id seq_id rflags : ℕ) → Replies (open_reply {v = v} id seq_id rflags)
  unfolding open_reply
  open_reply-Replies id seq_id rflags = search bodies

  opened_before-Replies :
      (id : Option ℕ) (seq_id : ℕ) (other : Body v)
      → Replies other
      → Replies (opened_before id seq_id other)
  unfolding opened_before
  opened_before-Replies none seq_id other a = a
  opened_before-Replies (some id) seq_id other a = open_reply-Replies id seq_id _

  unless_open-Replies :
      (client seq_id : ℕ) (other : Body v)
      → Replies other
      → Replies (unless_open client seq_id other)
  unfolding unless_open Replies
  unless_open-Replies client seq_id other a h st f = opened_before-Replies _ seq_id other a h st f

  checks_type-Replies :
      (path : List ℕ) (next : Bool → Body v)
      → ((missing : Bool) → Replies (next missing))
      → Replies (checks_type path next)
  unfolding checks_type
  checks_type-Replies path next a = search bodies depth 12

  opens-Replies :
      (o : Opening) (missing : Bool) (next : Opened v → Body v)
      → ((f : Opened v) → Replies (next f))
      → Replies (opens o missing next)
  unfolding opens
  opens-Replies o missing next a = search bodies depth 14

  closing :
      (out : Buf) (f : Opened v) (r : Result (ℕ × Held v × State (Files v)))
      → BodyAnswers out r
      → BodyAnswers out (do
        (status, h', st') ← r
        let disk = (v.close_file (file_of f) st'.world.files.disk).1
        ok (
          status,
          h',
          record st' {
            world = record st'.world { files = record st'.world.files { disk = disk } };
          },
        ))
  unfolding BodyAnswers
  closing out f (ok (status, h', st')) a = a
  closing out f (err e) a = tt
  closing out f panic a = tt
  closing out f stuck a = tt

  close_after-Replies : (f : Opened v) (next : Body v) → Replies next → Replies (close_after f next)
  unfolding close_after Replies
  close_after-Replies f next a h st fresh = closing st.out f (next h st) (a h st fresh)

  fail_open-Replies : (f : Opened v) (e : Error) → Replies (fail_open f e)
  unfolding fail_open
  fail_open-Replies f e = search (bodies, close_after-Replies) depth 12

  handle_of-Replies :
      (o : Opening) (f : Opened v) (next : List ℕ → Body v)
      → ((handle : List ℕ) → Replies (next handle))
      → Replies (handle_of o f next)
  unfolding handle_of
  handle_of-Replies o f next a = search (bodies, fail_open-Replies) depth 12

  adds_file-Replies :
      (f : File v) (next : ℕ → Body v) → ((id : ℕ) → Replies (next id)) → Replies (adds_file f next)
  unfolding adds_file Replies
  adds_file-Replies f next a h st fresh =
      bind-BodyAnswers (add_file f st.world.draws h.worker st.world.clients) st.out _
        λ (added : ℕ × List ℕ × Worker v × Clients).
          a added.0 _ (record st { world = record st.world { draws = added.1; clients = added.3 } })
            fresh

  forgets_changed-Replies :
      (o : Opening) (handle : List ℕ) (next : Body v)
      → Replies next
      → Replies (forgets_changed o handle next)
  unfolding forgets_changed
  forgets_changed-Replies o handle next a = search bodies depth 12

  open_body-Replies : (o : Opening) → Replies (open_body {v = v} o)
  unfolding open_body
  open_body-Replies o =
      search
        (
          bodies, open_reply-Replies, unless_open-Replies, checks_type-Replies, opens-Replies,
          handle_of-Replies, adds_file-Replies, forgets_changed-Replies,
        )
        depth 16

module _ (v : Vfs) (key : List ℕ) (req : Request) where
  open_for-Handles :
      (o : Opening) (found : Option (Client × Clients)) → Handles (open_for {v = v} key req o found)
  unfolding open_for Handles
  open_for-Handles o none st f = answer-Answers op_open stale_clientid end tt st f
  open_for-Handles o (some (c, cs)) st f =
      with_fs-Handles key req (open_body o) (open_body-Replies v o) _ f

  open_client-Handles :
      (share_deny : ℕ) (o : Opening) → Handles (open_client {v = v} key req share_deny o)
  unfolding open_client Handles
  open_client-Handles share_deny o st f =
      if-Answers _ st.out _ _ (answer-Answers op_open share_denied end tt st f) (
        look_at_clock-Answers st.out st.world _
          (λ now world. open_for-Handles o _ (record st { world = world }) f))

  no_claim-Handles : Handles {F = Files v} (λ st. err bad_claim)
  unfolding Handles Answers
  no_claim-Handles st f = tt

  open_claimed-Handles :
      (claim : ℕ) (file : List ℕ) (share_deny : ℕ) (o : Opening)
      → Handles (open_claimed {v = v} key req claim file share_deny o)
  unfolding open_claimed
  open_claimed-Handles claim file share_deny o =
      search (if-Handles, answer-Handles, open_client-Handles, no_claim-Handles) depth 12

  open_args-Handles : (args : Val open4args) → Handles (open_args {v = v} key req args)
  unfolding open_args Handles
  open_args-Handles
        (seq_id, (share_access, (share_deny, ((client_id, _), (how, ((claim, (file, _)), _)))))) st
        f =
      bind-Answers (open_ids req.minor_ver st.session_id st.slot client_id seq_id) st.out _
        λ (ids : ℕ × ℕ) _.
          bind-Answers (open_plan st.world.clock share_access how) st.out _ λ (plan : Plan) _.
            bind-Answers (deref st.current_handle) st.out _ λ (current : FileHandle) _.
              open_claimed-Handles claim file share_deny
                (record {
                  client = ids.0;
                  seq_id = ids.1;
                  flag = plan.0;
                  mode = plan.1;
                  creates = how.0 == open4_create;
                  by_handle = false;
                  current = current;
                  path = current.path;
                })
                (record st { world = record st.world { clock = plan.2 } }) f

  pub open_file-Handles : Handles (open_file {v = v} key req)
  unfolding open_file
  open_file-Handles = reads-Handles open4args _ open_args-Handles
