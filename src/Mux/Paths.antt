-- ===== src/Mux/Paths.antt =====
-- mux_v4.go: the operations that set the current file handle.
use nfs4go.Common.{
  ℕ, Bool, true, false, List, [], ◌∷◌, list_eq, if◌then◌else◌, Error, not_exist, enotsup, nfs_error,
}
use nfs4go.Vfs.{Vfs}
use nfs4go.Msg.Args.{putfh4args, lookup4args}
use nfs4go.Msg.Ops.{op_putrootfh, op_putpubfh, op_putfh, op_lookup, op_lookupp}
use nfs4go.Msg.Status.{nfs4_ok, inval, stale, err2status}
use nfs4go.Mux.State.{Request, Handler}
use nfs4go.Mux.Output.{plain}
use nfs4go.Mux.Files.{
  Files, Body, reads, need_current, with_fs, ask, fail, plain_reply, discards, cached, moves,
  is_non_fatal,
}

-- The path "/".
abbrev pub root : List ℕ
root = b'/' ∷ []

abbrev pub is_empty : List ℕ → Bool
is_empty [] = true
is_empty (x ∷ xs) = false

-- A handle that is not there any more, or that the file system cannot resolve, is stale.
unfoldable pub stale_error : Error → Error
stale_error not_exist = nfs_error stale
stale_error enotsup = nfs_error stale
stale_error e = e

module _ {v : Vfs} where
  unfoldable pub fail_stale : Error → Body v
  unfolding stale_error
  fail_stale e =
      if is_non_fatal e
      then plain_reply op_putfh (err2status (stale_error e))
      else discards (plain_reply op_putfh (err2status (stale_error e)))

module _ {v : Vfs} (client_key : List ℕ) (req : Request) where
  unfoldable pub put_root : ℕ → Handler (Files v)
  unfolding with_fs ask discards moves
  put_root op = with_fs client_key req (
      ask (λ fs. v.handle fs root)
        (λ fh. moves (record { handle = fh; path = root }) (plain_reply op nfs4_ok))
        (λ e. discards (plain_reply op (err2status e))))

  unfoldable pub put_root_fh : Handler (Files v)
  unfolding put_root
  put_root_fh = put_root op_putrootfh

  unfoldable pub put_pub_fh : Handler (Files v)
  unfolding put_root
  put_pub_fh = put_root op_putpubfh

  unfoldable pub put_fh : Handler (Files v)
  unfolding reads with_fs ask cached moves fail_stale
  put_fh = reads putfh4args λ (fh, _). with_fs client_key req (
      cached fh
        (λ entry. moves (record { handle = fh; path = entry.path }) (plain_reply op_putfh nfs4_ok))
        (ask (λ fs. v.path fs fh)
          (λ path. moves (record { handle = fh; path = path }) (plain_reply op_putfh nfs4_ok))
          fail_stale))

  unfoldable pub lookup : Handler (Files v)
  unfolding reads need_current with_fs ask moves fail
  lookup = reads lookup4args λ (name, _).
      if is_empty name
      then plain op_lookup inval
      else need_current op_lookup λ current.
        let path = v.join current.path name in
        with_fs client_key req (
          ask (λ fs. v.handle fs path)
            (λ fh. moves (record { handle = fh; path = path }) (plain_reply op_lookup nfs4_ok))
            (fail op_lookup))

  unfoldable pub lookup_parent : Handler (Files v)
  unfolding need_current with_fs ask moves fail
  lookup_parent = need_current op_lookupp λ current.
      if list_eq current.path root
      then plain op_lookupp inval
      else (let path = v.base current.path in
          with_fs client_key req (
            ask (λ fs. v.handle fs path)
              (λ fh. moves (record { handle = fh; path = path }) (plain_reply op_lookupp nfs4_ok))
              (fail op_lookupp)))
