-- ===== src/Mux/FileSwitch.antt =====
-- mux_v4.go: the cases of `doOperation` that are operations on files.
use nfs4go.Common.{ℕ, ◌≡◌, List, [], ◌==◌, if◌then◌else◌, ok}
use nfs4go.Bufpool.Contents.{contents}
use nfs4go.Vfs.{Vfs}
use nfs4go.Xdr.Layout.{end}
use nfs4go.Msg.Ops.{
  op_putrootfh, op_putpubfh, op_putfh, op_getattr, op_lookup, op_lookupp, op_access, op_readdir,
  op_create, op_rename, op_remove, op_link, op_readlink, op_setattr, op_open, op_open_downgrade,
  op_close, op_read, op_write, op_commit, op_verify, op_nverify, op_getxattr, op_setxattr,
  op_listxattrs, op_removexattr,
}
use nfs4go.Mux.State.{Request, State, Handler}
use nfs4go.Mux.Dispatch.{not_implemented}
use nfs4go.Mux.Files.{Files}
use nfs4go.Mux.Paths.{put_root_fh, put_pub_fh, put_fh, lookup, lookup_parent}
use nfs4go.Mux.Changes.{rename, remove, link, readlink}
use nfs4go.Mux.OpenFiles.{open_downgrade, close, read, write, commit}
use nfs4go.Mux.Access.{access}
use nfs4go.Mux.ExtendedAttrs.{get_xattr, set_xattr, list_xattrs, remove_xattr}
use nfs4go.Mux.Attributes.{get_attr, verify, n_verify}
use nfs4go.Mux.SetAttr.{set_attr, create}
use nfs4go.Mux.Opens.{open_file}
use nfs4go.Mux.ReadDir.{read_dir}
use nfs4go.Mux.Run.{run}
use nfs4go.Mux.Appends.{IsFresh}
use nfs4go.Mux.Answers.{Answers}
use nfs4go.Mux.Handlers.{not_implemented-Shaped}
use nfs4go.Mux.Shapes.{Ensures-Answers}
use nfs4go.Mux.Outcome.{Outcome}
use nfs4go.Mux.Compounds.{run-Outcome}
use nfs4go.Mux.Bodies.{Handles, if-Handles}
use nfs4go.Mux.FileReplies.{
  put_root_fh-Handles, put_pub_fh-Handles, put_fh-Handles, lookup-Handles, lookup_parent-Handles,
  access-Handles, rename-Handles, remove-Handles, link-Handles, readlink-Handles,
  open_downgrade-Handles, close-Handles, read-Handles, write-Handles, commit-Handles,
  get_xattr-Handles, set_xattr-Handles, list_xattrs-Handles, remove_xattr-Handles,
}
use nfs4go.Mux.AttrReplies.{
  get_attr-Handles, verify-Handles, n_verify-Handles, set_attr-Handles, create-Handles,
}
use nfs4go.Mux.OpenReplies.{open_file-Handles}
use nfs4go.Mux.ReadDirReplies.{read_dir-Handles}

not_implemented-Handles : (F : Type 0) (op : ℕ) → Handles {F = F} (not_implemented op)
unfolding Handles
not_implemented-Handles F op st h =
    Ensures-Answers (op, end) st.out _ (not_implemented-Shaped op st h)

module _ {v : Vfs} (key : List ℕ) (req : Request) where
  -- Any other number is not an operation on files.
  unfoldable pub file_operation : ℕ → Handler (Files v)
  file_operation op =
      if op == op_putrootfh
      then put_root_fh key req
      else (if op == op_putpubfh
          then put_pub_fh key req
          else (if op == op_putfh
              then put_fh key req
              else (if op == op_getattr
                  then get_attr key req
                  else (if op == op_lookup
                      then lookup key req
                      else (if op == op_lookupp
                          then lookup_parent key req
                          else (if op == op_access
                              then access key req
                              else (if op == op_readdir
                                  then read_dir key req
                                  else (if op == op_create
                                      then create key req
                                      else (if op == op_rename
                                          then rename key req
                                          else (if op == op_remove
                                              then remove key req
                                              else (if op == op_link
                                                  then link key req
                                                  else (if op == op_readlink
                                                      then readlink key req
                                                      else (if op == op_setattr
                                                          then set_attr key req
                                                          else (if op == op_open
                                                            then open_file key req
                                                            else (if op == op_open_downgrade
                                                            then open_downgrade key req
                                                            else (if op == op_close
                                                            then close key req
                                                            else (if op == op_read
                                                            then read key req
                                                            else (if op == op_write
                                                            then write key req
                                                            else (if op == op_commit
                                                            then commit key req
                                                            else (if op == op_verify
                                                            then verify key req
                                                            else (if op == op_nverify
                                                            then n_verify key req
                                                            else (if op == op_getxattr
                                                            then get_xattr key req
                                                            else (if op == op_setxattr
                                                            then set_xattr key req
                                                            else (if op == op_listxattrs
                                                            then list_xattrs key req
                                                            else (if op == op_removexattr
                                                            then remove_xattr key req
                                                            else (not_implemented
                                                            op))))))))))))))))))))))))))

file_operation-Handles :
    (v : Vfs) (key : List ℕ) (req : Request) (op : ℕ) → Handles (file_operation {v = v} key req op)
unfolding file_operation
file_operation-Handles v key req op =
    search
      (
        if-Handles, not_implemented-Handles, put_root_fh-Handles, put_pub_fh-Handles,
        put_fh-Handles, get_attr-Handles, lookup-Handles, lookup_parent-Handles, access-Handles,
        read_dir-Handles, create-Handles, rename-Handles, remove-Handles, link-Handles,
        readlink-Handles, set_attr-Handles, open_file-Handles, open_downgrade-Handles,
        close-Handles, read-Handles, write-Handles, commit-Handles, verify-Handles,
        n_verify-Handles, get_xattr-Handles, set_xattr-Handles, list_xattrs-Handles,
        remove_xattr-Handles,
      )
      depth 40

module _ {v : Vfs} (key : List ℕ) (req : Request) where
  -- Each operation on files, over any file system, from any state with a buffer that is not read: if it
  -- returns, it has added one reply to the buffer, with an operation code and the status that it
  -- gives to the loop, on all its branches.
  pub file_operation-Answers :
      (op : ℕ) (st : State (Files v))
      → IsFresh st.out
      → Answers st.out (file_operation key req op st)
  unfolding Handles
  file_operation-Answers op st h = file_operation-Handles v key req op st h

  -- With the operations on files of the program, over any file system: on an empty buffer, what `Run` gives
  -- is a header with the number of replies and the last status and the replies up to the first fatal one
  -- or the end, or one refusal, or a copy of the reply that a slot of a client in the table keeps.
  pub run_files-Outcome :
      (st st' : State (Files v))
      → IsFresh st.out
      → contents st.out ≡ []
      → run (file_operation key req) req st ≡ ok st'
      → Outcome req st.world.clients st.out st'.out
  run_files-Outcome st st' h empty e =
      run-Outcome (file_operation key req) req file_operation-Answers st st' h empty e
