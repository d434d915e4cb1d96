-- ===== src/Mux/FileReplies.antt =====
-- mux_v4.go: each modelled operation on files adds one reply, with the status it gives.
use nfs4go.Common.{ℕ, List}
use nfs4go.Vfs.{Vfs}
use nfs4go.Mux.State.{Request}
use nfs4go.Mux.Paths.{put_root, put_root_fh, put_pub_fh, put_fh, lookup, lookup_parent}
use nfs4go.Mux.Changes.{rename, remove, link, readlink}
use nfs4go.Mux.OpenFiles.{open_downgrade, close, read, write, commit}
use nfs4go.Mux.Access.{access}
use nfs4go.Mux.ExtendedAttrs.{get_xattr, set_xattr, list_xattrs, remove_xattr}
use nfs4go.Mux.Bodies.{Handles}
use nfs4go.Mux.FileHandlers.{parts}

module _ (v : Vfs) (key : List ℕ) (req : Request) where
  pub put_root-Handles : (op : ℕ) → Handles (put_root {v = v} key req op)
  unfolding put_root
  put_root-Handles op = search parts depth 12

  pub put_fh-Handles : Handles (put_fh {v = v} key req)
  unfolding put_fh
  put_fh-Handles = search parts depth 12

  pub lookup-Handles : Handles (lookup {v = v} key req)
  unfolding lookup
  lookup-Handles = search parts depth 12

  pub lookup_parent-Handles : Handles (lookup_parent {v = v} key req)
  unfolding lookup_parent
  lookup_parent-Handles = search parts depth 12

  pub put_root_fh-Handles : Handles (put_root_fh {v = v} key req)
  unfolding put_root_fh
  put_root_fh-Handles = put_root-Handles _

  pub put_pub_fh-Handles : Handles (put_pub_fh {v = v} key req)
  unfolding put_pub_fh
  put_pub_fh-Handles = put_root-Handles _

  pub rename-Handles : Handles (rename {v = v} key req)
  unfolding rename
  rename-Handles = search parts depth 14

  pub remove-Handles : Handles (remove {v = v} key req)
  unfolding remove
  remove-Handles = search parts depth 14

  pub link-Handles : Handles (link {v = v} key req)
  unfolding link
  link-Handles = search parts depth 14

  pub readlink-Handles : Handles (readlink {v = v} key req)
  unfolding readlink
  readlink-Handles = search parts depth 14

  pub open_downgrade-Handles : Handles (open_downgrade {v = v} key req)
  unfolding open_downgrade
  open_downgrade-Handles = search parts depth 14

  pub close-Handles : Handles (close {v = v} key req)
  unfolding close
  close-Handles = search parts depth 14

  pub read-Handles : Handles (read {v = v} key req)
  unfolding read
  read-Handles = search parts depth 14

  pub write-Handles : Handles (write {v = v} key req)
  unfolding write
  write-Handles = search parts depth 14

  pub commit-Handles : Handles (commit {v = v} key req)
  unfolding commit
  commit-Handles = search parts depth 14

  pub access-Handles : Handles (access {v = v} key req)
  unfolding access
  access-Handles = search parts depth 14

  pub get_xattr-Handles : Handles (get_xattr {v = v} key req)
  unfolding get_xattr
  get_xattr-Handles = search parts depth 14

  pub set_xattr-Handles : Handles (set_xattr {v = v} key req)
  unfolding set_xattr
  set_xattr-Handles = search parts depth 14

  pub list_xattrs-Handles : Handles (list_xattrs {v = v} key req)
  unfolding list_xattrs
  list_xattrs-Handles = search parts depth 14

  pub remove_xattr-Handles : Handles (remove_xattr {v = v} key req)
  unfolding remove_xattr
  remove_xattr-Handles = search parts depth 14
