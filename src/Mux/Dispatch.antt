-- ===== src/Mux/Dispatch.antt =====
-- mux_v4.go: `doOperation`. The operations on files are `file_operation`, which is given the code.
use nfs4go.Common.{ℕ, Bool, false, ◌||◌, List, [], ◌∷◌, ◌==◌, if◌then◌else◌}
use nfs4go.Msg.Ops.{
  op_setclientid, op_setclientid_confirm, op_exchange_id, op_create_session, op_reclaim_complete,
  op_destroy_session, op_destroy_clientid, op_putrootfh, op_putpubfh, op_putfh, op_getfh, op_savefh,
  op_restorefh, op_getattr, op_lookup, op_lookupp, op_access, op_readdir, op_renew, op_secinfo,
  op_secinfo_no_name, op_create, op_rename, op_remove, op_link, op_readlink, op_setattr, op_open,
  op_open_downgrade, op_close, op_read, op_write, op_commit, op_verify, op_nverify, op_getxattr,
  op_setxattr, op_listxattrs, op_removexattr, op_backchannel_ctl, op_bind_conn_to_session,
  op_free_stateid, op_illegal, op_lock, op_lockt, op_locku, op_set_ssv, op_test_stateid,
  op_allocate, op_clone, op_copy, op_copy_notify, op_deallocate, op_delegpurge, op_delegreturn,
  op_getdeviceinfo, op_get_dir_delegation, op_io_advise, op_layoutcommit, op_layouterror,
  op_layoutget, op_layoutreturn, op_layoutstats, op_offload_cancel, op_offload_status, op_openattr,
  op_read_plus, op_seek, op_want_delegation, op_write_same,
}
use nfs4go.Msg.Status.{notsupp, serverfault, op_not_in_session, fhexpired, stale}
use nfs4go.Msg.Status
use nfs4go.Mux.State.{Request, Handler}
use nfs4go.Mux.Output.{plain}
use nfs4go.Mux.Sessions.{
  set_client_id, set_client_id_confirm, exchange_id, create_session, reclaim_complete,
  destroy_session, destroy_client_id, renew, secinfo, secinfo_no_name,
}
use nfs4go.Mux.Handles.{get_fh, save_fh, restore_fh}

-- `slices.Contains`.
unfoldable pub contains : List ℕ → ℕ → Bool
contains [] n = false
contains (m ∷ ms) n = m == n || contains ms n

-- The operations that look at the file system or at open files.
abbrev pub file_ops : List ℕ
file_ops =
    op_putrootfh ∷ op_putpubfh ∷ op_putfh ∷ op_getattr ∷ op_lookup ∷ op_lookupp ∷ op_access
    ∷ op_readdir ∷ op_create ∷ op_rename ∷ op_remove ∷ op_link ∷ op_readlink ∷ op_setattr ∷ op_open
    ∷ op_open_downgrade ∷ op_close ∷ op_read ∷ op_write ∷ op_commit ∷ op_verify ∷ op_nverify
    ∷ op_getxattr ∷ op_setxattr ∷ op_listxattrs ∷ op_removexattr ∷ []

abbrev pub not_implemented_required_ops : List ℕ
not_implemented_required_ops =
    op_backchannel_ctl ∷ op_bind_conn_to_session ∷ op_free_stateid ∷ op_illegal ∷ op_lock ∷ op_lockt
    ∷ op_locku ∷ op_set_ssv ∷ op_test_stateid ∷ []

abbrev pub not_implemented_optional_ops : List ℕ
not_implemented_optional_ops =
    op_allocate ∷ op_clone ∷ op_copy ∷ op_copy_notify ∷ op_deallocate ∷ op_delegpurge
    ∷ op_delegreturn ∷ op_getdeviceinfo ∷ op_get_dir_delegation ∷ op_io_advise ∷ op_layoutcommit
    ∷ op_layouterror ∷ op_layoutget ∷ op_layoutreturn ∷ op_layoutstats ∷ op_offload_cancel
    ∷ op_offload_status ∷ op_openattr ∷ op_read_plus ∷ op_seek ∷ op_want_delegation ∷ op_write_same
    ∷ []

-- After one of these a compound stops.
abbrev pub fatal_statuses : List ℕ
fatal_statuses =
    Status.op_illegal ∷ op_not_in_session ∷ serverfault ∷ notsupp ∷ fhexpired ∷ stale ∷ []

unfoldable pub not_implemented : {F : Type 0} → ℕ → Handler F
not_implemented op st =
    if contains not_implemented_optional_ops op
    then plain op notsupp st
    else (if contains not_implemented_required_ops op
        then plain op serverfault st
        else plain op Status.op_illegal st)

module _ {F : Type 0} (file_operation : ℕ → Handler F) (req : Request) where
  -- The cases of the switch that are left once the operations on files are taken out.
  unfoldable pub other_operation : ℕ → Handler F
  other_operation op st =
      if op == op_setclientid
      then set_client_id req st
      else (if op == op_setclientid_confirm
          then set_client_id_confirm req st
          else (if op == op_exchange_id
              then exchange_id req st
              else (if op == op_create_session
                  then create_session req st
                  else (if op == op_reclaim_complete
                      then reclaim_complete req st
                      else (if op == op_destroy_session
                          then destroy_session req st
                          else (if op == op_destroy_clientid
                              then destroy_client_id req st
                              else (if op == op_getfh
                                  then get_fh st
                                  else (if op == op_savefh
                                      then save_fh st
                                      else (if op == op_restorefh
                                          then restore_fh st
                                          else (if op == op_renew
                                              then renew req st
                                              else (if op == op_secinfo
                                                  then secinfo st
                                                  else (if op == op_secinfo_no_name
                                                      then secinfo_no_name st
                                                      else not_implemented op st))))))))))))

  unfoldable pub do_operation : ℕ → Handler F
  unfolding other_operation
  do_operation op st = if contains file_ops op then file_operation op st else other_operation op st
