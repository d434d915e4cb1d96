-- ===== src/Mux/Opens.antt =====
-- mux_v4.go: OPEN.
use Prim.Native.Nat.{bit_and}
use nfs4go.Common.{
  ℕ, Bool, true, false, not, ◌||◌, ◌==◌, List, [], ◌∷◌, Option, none, some, if◌then◌else◌, Error,
  not_exist, enotsup, nfs_error, bad_claim, Result, ok, err, panic, ◌>>=◌,
}
use nfs4go.Attrs.FileId.{file_other}
use nfs4go.Attrs.Numbers.{a_mode}
use nfs4go.Attrs.Values.{mode_symlink}
use nfs4go.Clients.Client.{Client}
use nfs4go.Clients.Table.{Clients}
use nfs4go.Clients.Table
use nfs4go.Vfs.{Vfs}
use nfs4go.Worker.State.{File, Opened, whole, nop_writer_at, nop_reader_at, file_of}
use nfs4go.Worker.Files.{add_file, get_file_by_client_seq_id}
use nfs4go.Xdr.Layout.{Val, ◌▸◌, end, zero_val}
use nfs4go.Msg.Types.{change_info4, open_delegation4}
use nfs4go.Msg.Args.{open4args}
use nfs4go.Msg.Replies.{open4resok}
use nfs4go.Msg.Ops.{op_open}
use nfs4go.Msg.Status.{
  nfs4_ok, notsupp, share_denied, stale_clientid, isdir, symlink, fhexpired, err2status,
}
use nfs4go.Mux.State.{FileHandle, Request, Handler, look_at_clock}
use nfs4go.Mux.Output.{plain}
use nfs4go.Mux.Files.{
  Files, Body, reads, with_fs, ask, fail, reply, plain_reply, forgets, moves, discards,
  with_clients, is_non_fatal,
}
use nfs4go.Mux.OpenPlan.{
  o_wronly, o_rdwr, open4_create, claim_null, claim_previous, claim_delegate_cur,
  claim_delegate_prev, claim_fh, claim_deleg_cur_fh, preserve_unlinked, open_ids, open_plan,
}

-- An OPEN after its first part.
pub record Opening : Type 0 where
  pub client : ℕ
  pub seq_id : ℕ
  pub flag : ℕ
  pub mode : ℕ
  pub creates : Bool
  pub by_handle : Bool
  pub current : FileHandle
  pub path : List ℕ

abbrev pub is_not_exist : Error → Bool
is_not_exist not_exist = true
is_not_exist _ = false

unfoldable pub expired_error : Error → Error
expired_error enotsup = nfs_error fhexpired
expired_error e = e

-- `path := x.CurrentHandle.Path` comes before the test of the pointer.
unfoldable pub deref : Option FileHandle → Result FileHandle
deref none = panic
deref (some fh) = ok fh

module _ {v : Vfs} where
  unfoldable pub open_reply : ℕ → ℕ → ℕ → Body v
  unfolding reply file_other
  open_reply id seq_id rflags = reply op_open nfs4_ok (open4resok ▸ end) (
    (
      (1, (file_other id seq_id, tt)),
      (zero_val change_info4, (rflags, (a_mode ∷ [], (zero_val open_delegation4, tt)))),
    ),
    tt,
  )

  unfoldable pub opened_before : Option ℕ → ℕ → Body v → Body v
  opened_before none seq_id other = other
  opened_before (some id) seq_id other = open_reply id seq_id preserve_unlinked

  -- `fs.GetFileByClientSeqID`: an OPEN that is repeated is answered with the file it opened.
  unfoldable pub unless_open : ℕ → ℕ → Body v → Body v
  unfolding opened_before
  unless_open client seq_id other h st =
      opened_before (get_file_by_client_seq_id client seq_id h.worker) seq_id other h st

  -- `Lstat`; what follows is told whether there is no such file.
  unfoldable pub checks_type : List ℕ → (Bool → Body v) → Body v
  unfolding ask
  checks_type path next =
      ask (λ fs. v.lstat fs path)
        (λ info.
          if v.is_dir info
          then plain_reply op_open isdir
          else (if bit_and (v.mode info) mode_symlink == mode_symlink
              then plain_reply op_open symlink
              else next false))
        (λ e. next (is_not_exist e))

  unfoldable pub opens : Opening → Bool → (Opened v → Body v) → Body v
  unfolding ask fail
  opens o missing next =
      if not (bit_and o.flag o_wronly == 0)
      then ask (λ fs. v.file_write fs o.path o.flag)
          (λ f.
            if missing
            then ask (λ fs. v.chmod fs o.path o.mode) (λ _. next (nop_reader_at f))
                (λ _. next (nop_reader_at f))
            else next (nop_reader_at f))
          (fail op_open)
      else (if not (bit_and o.flag o_rdwr == 0)
          then ask (λ fs. v.open_file fs o.path o.flag o.mode) (λ f. next (whole f)) (fail op_open)
          else ask (λ fs. v.file_read fs o.path) (λ f. next (nop_writer_at f)) (fail op_open))

  -- The file is closed again, after the reply is written; its error is not told.
  unfoldable pub close_after : Opened v → Body v → Body v
  close_after f next h st = do
    (status, h', st') ← next h st
    let disk = (v.close_file (file_of f) st'.world.files.disk).1
    ok (
      status,
      h',
      record st' { world = record st'.world { files = record st'.world.files { disk = disk } } },
    )

  unfoldable pub fail_open : Opened v → Error → Body v
  unfolding is_non_fatal discards close_after expired_error
  fail_open f e =
      if is_non_fatal e
      then close_after f (plain_reply op_open (err2status (expired_error e)))
      else discards (close_after f (plain_reply op_open (err2status (expired_error e))))

  unfoldable pub handle_of : Opening → Opened v → (List ℕ → Body v) → Body v
  unfolding ask fail_open
  handle_of o f next =
      if o.by_handle
      then next o.current.handle
      else ask (λ fs. v.handle fs o.path) next (fail_open f)

  -- `fs.AddFile`.
  unfoldable pub adds_file : File v → (ℕ → Body v) → Body v
  adds_file f next h st = do
    (id, draws, w, cs) ← add_file f st.world.draws h.worker st.world.clients
    next id (record h { worker = w })
        (record st { world = record st.world { draws = draws; clients = cs } })

  unfoldable pub forgets_changed : Opening → List ℕ → Body v → Body v
  unfolding forgets
  forgets_changed o handle next =
      if o.creates
      then forgets o.current.handle next
      else (if not (bit_and o.flag o_rdwr == 0) || not (bit_and o.flag o_wronly == 0)
          then forgets handle next
          else next)

  unfoldable pub open_body : Opening → Body v
  unfolding unless_open checks_type opens handle_of forgets_changed adds_file moves open_reply
  open_body o = unless_open o.client o.seq_id (
      checks_type o.path λ missing. opens o missing λ f. handle_of o f λ handle.
        forgets_changed o handle (
          adds_file
            (record { file = f; handle = handle; client = o.client; client_seq_id = o.seq_id })
            λ id. moves (record { handle = handle; path = o.path }) (open_reply id o.seq_id 0)))

  -- `x.Clients.Get`, and the rest of the operation.
  unfoldable pub open_for :
      List ℕ → Request → Opening → Option (Client × Clients) → Handler (Files v)
  unfolding with_fs open_body
  open_for client_key req o none st = plain op_open stale_clientid st
  open_for client_key req o (some (c, cs)) st =
      with_fs client_key req (open_body o) (with_clients st cs)

  unfoldable pub open_client : List ℕ → Request → ℕ → Opening → Handler (Files v)
  unfolding open_for
  open_client client_key req share_deny o st =
      if not (share_deny == 0) then plain op_open share_denied st else (do
        (now, world) ← look_at_clock st.world
        open_for client_key req o (Table.get now o.client world.clients)
            (record st { world = world }))

  -- The switch on the claim.
  unfoldable pub open_claimed : List ℕ → Request → ℕ → List ℕ → ℕ → Opening → Handler (Files v)
  unfolding open_client
  open_claimed client_key req claim file share_deny o =
      if claim == claim_null
      then open_client client_key req share_deny (record o { path = v.join o.current.path file })
      else (if claim == claim_fh
          then open_client client_key req share_deny (record o { by_handle = true })
          else (if (claim == claim_previous || claim == claim_delegate_cur)
                || (claim == claim_delegate_prev || claim == claim_deleg_cur_fh)
              then plain op_open notsupp
              else (λ st. err bad_claim)))

  unfoldable pub open_args : List ℕ → Request → Val open4args → Handler (Files v)
  unfolding open_ids open_plan deref open_claimed
  open_args client_key req
        (seq_id, (share_access, (share_deny, ((client_id, _), (how, ((claim, (file, _)), _))))))
        st =
      do
        (client, seq) ← open_ids req.minor_ver st.session_id st.slot client_id seq_id
        (flag, mode, clock) ← open_plan st.world.clock share_access how
        current ← deref st.current_handle
        open_claimed client_key req claim file share_deny
            (record {
              client = client;
              seq_id = seq;
              flag = flag;
              mode = mode;
              creates = how.0 == open4_create;
              by_handle = false;
              current = current;
              path = current.path;
            })
            (record st { world = record st.world { clock = clock } })

  unfoldable pub open_file : List ℕ → Request → Handler (Files v)
  unfolding reads open_args
  open_file client_key req = reads open4args (open_args client_key req)
