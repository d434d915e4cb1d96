-- ===== src/Mux/Handles.antt =====
-- mux_v4.go: the operations that only move file handles.
use nfs4go.Common.{Option, none, some}
use nfs4go.Xdr.Layout.{◌▸◌, end}
use nfs4go.Msg.Replies.{getfh4resok}
use nfs4go.Msg.Ops.{op_getfh, op_savefh, op_restorefh}
use nfs4go.Msg.Status.{nfs4_ok, nofilehandle, restorefh}
use nfs4go.Mux.State.{FileHandle, Handler}
use nfs4go.Mux.Output.{answer, plain}

module _ {F : Type 0} where
  unfoldable pub get_handle : Option FileHandle → Handler F
  get_handle none st = plain op_getfh nofilehandle st
  get_handle (some fh) st = answer op_getfh nfs4_ok (getfh4resok ▸ end) ((fh.handle, tt), tt) st

  unfoldable pub get_fh : Handler F
  unfolding get_handle
  get_fh st = get_handle st.current_handle st

  unfoldable pub save_handle : Option FileHandle → Handler F
  save_handle none st = plain op_savefh nofilehandle st
  save_handle (some fh) st = plain op_savefh nfs4_ok (record st { saved_handle = some fh })

  unfoldable pub save_fh : Handler F
  unfolding save_handle
  save_fh st = save_handle st.current_handle st

  unfoldable pub restore_handle : Option FileHandle → Handler F
  restore_handle none st = plain op_restorefh restorefh st
  restore_handle (some fh) st = plain op_restorefh nfs4_ok (record st { current_handle = some fh })

  unfoldable pub restore_fh : Handler F
  unfolding restore_handle
  restore_fh st = restore_handle st.saved_handle st
