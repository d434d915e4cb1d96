-- ===== src/Mux/Changes.antt =====
-- mux_v4.go: the operations that change directories, and READLINK.
use nfs4go.Common.{ℕ, ◌||◌, ◌==◌, List, if◌then◌else◌, Error}
use nfs4go.Vfs.{Vfs}
use nfs4go.Xdr.Layout.{◌▸◌, end, zero_val}
use nfs4go.Msg.Args.{rename4args, remove4args, link4args}
use nfs4go.Msg.Types.{change_info4}
use nfs4go.Msg.Replies.{rename4resok, remove4resok, link4resok, readlink4resok}
use nfs4go.Msg.Ops.{op_rename, op_remove, op_link, op_readlink}
use nfs4go.Msg.Status.{nfs4_ok, inval, restorefh, notsupp, xdev, err2status}
use nfs4go.Mux.State.{FileHandle, Request, Handler}
use nfs4go.Mux.Output.{plain}
use nfs4go.Mux.Files.{
  Files, Body, reads, need, need_current, with_fs, ask, fail, reply, plain_reply, discards, forgets,
  is_non_fatal,
}
use nfs4go.Mux.Paths.{is_empty}

-- NFS4ERR_NOTSUPP of a rename or a link is told as NFS4ERR_XDEV.
abbrev pub across : ℕ → ℕ
across status = if status == notsupp then xdev else status

module _ {v : Vfs} where
  -- `x.SavedHandle == nil` is answered with NFS4ERR_RESTOREFH.
  unfoldable pub need_saved : ℕ → (FileHandle → Handler (Files v)) → Handler (Files v)
  unfolding need
  need_saved op next st = need op restorefh st.saved_handle next st

  -- Both operations answer as RENAME.
  unfoldable pub fail_across : Error → Body v
  unfolding is_non_fatal discards
  fail_across e =
      if is_non_fatal e
      then plain_reply op_rename (across (err2status e))
      else discards (plain_reply op_rename (across (err2status e)))

  -- `if err != nil && fs.Rmdir(path) == nil`: after an error of `Remove` the directory is tried, and its
  -- own error is not told.
  unfoldable pub remove_path : List ℕ → Body v → (Error → Body v) → Body v
  unfolding ask
  remove_path path good bad =
      ask (λ fs. v.remove fs path) (λ _. good)
        (λ e. ask (λ fs. v.rmdir fs path) (λ _. good) (λ _. bad e))

module _ {v : Vfs} (client_key : List ℕ) (req : Request) where
  unfoldable pub rename : Handler (Files v)
  unfolding reads need_current need_saved with_fs ask fail_across forgets
  rename = reads rename4args λ (old_name, (new_name, _)).
      if is_empty old_name || is_empty new_name
      then plain op_rename inval
      else need_current op_rename λ current. need_saved op_rename λ saved. with_fs client_key req (
          ask (λ fs. v.rename fs (v.join saved.path old_name) (v.join current.path new_name))
            (λ _. forgets saved.handle (
              forgets current.handle (
                reply op_rename nfs4_ok (rename4resok ▸ end)
                  ((zero_val change_info4, (zero_val change_info4, tt)), tt))))
            fail_across)

  unfoldable pub remove : Handler (Files v)
  unfolding reads need_current with_fs remove_path fail forgets
  remove = reads remove4args λ (target, _).
      if is_empty target
      then plain op_remove inval
      else need_current op_remove λ current. with_fs client_key req (
          remove_path (v.join current.path target)
            (forgets current.handle
              (reply op_remove nfs4_ok (remove4resok ▸ end) ((zero_val change_info4, tt), tt)))
            (fail op_remove))

  -- After the first tests the reply has the number of RENAME, as in the code.
  unfoldable pub link : Handler (Files v)
  unfolding reads need_current need_saved with_fs ask fail_across forgets
  link = reads link4args λ (new_name, _).
      if is_empty new_name
      then plain op_link inval
      else need_current op_link λ current. need_saved op_link λ saved. with_fs client_key req (
          ask (λ fs. v.link fs saved.path (v.join current.path new_name))
            (λ _.
              forgets current.handle
                (reply op_rename nfs4_ok (link4resok ▸ end) ((zero_val change_info4, tt), tt)))
            fail_across)

  unfoldable pub readlink : Handler (Files v)
  unfolding need_current with_fs ask fail reply
  readlink = need_current op_readlink λ current. with_fs client_key req (
      ask (λ fs. v.readlink fs current.path)
        (λ target. reply op_readlink nfs4_ok (readlink4resok ▸ end) ((target, tt), tt))
        (fail op_readlink))
