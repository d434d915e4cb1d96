-- ===== src/Mux/ExtendedAttrs.antt =====
-- mux_v4.go: the operations on extended attributes.
use nfs4go.Common.{
  ℕ, true, ◌==◌, ltb, List, [], ◌∷◌, ◌++◌, Option, none, some, if◌then◌else◌, Result, ok, err,
  panic, stuck, ◌>>=◌, map,
}
use nfs4go.Common.Int.{pos}
use nfs4go.Vfs.{Vfs}
use nfs4go.Server.Clock.{must_increment}
use nfs4go.Xdr.Layout.{◌▸◌, end, zero_val}
use nfs4go.Msg.Types.{change_info4}
use nfs4go.Msg.Args.{getxattr4args, setxattr4args, listxattrs4args, removexattr4args}
use nfs4go.Msg.Replies.{getxattr4resok, setxattr4resok, listxattrs4resok, removexattr4resok}
use nfs4go.Msg.Ops.{op_getxattr, op_setxattr, op_listxattrs, op_removexattr}
use nfs4go.Msg.Status.{nfs4_ok, noxattr, err2status}
use nfs4go.Mux.State.{FileHandle, Request, Handler, look_at_clock}
use nfs4go.Mux.Output.{answer}
use nfs4go.Mux.Files.{
  Files, Body, reads, with_fs, ask, fail, reply, plain_reply, forgets, at_current, stat_cached,
}

-- "user.".
abbrev pub attr_prefix : List ℕ
attr_prefix = b'u' ∷ b's' ∷ b'e' ∷ b'r' ∷ b'.' ∷ []

-- `strings.TrimPrefix(name, prefix)`: the rest of the name, or the whole name.
unfoldable pub strip : List ℕ → List ℕ → Option (List ℕ)
strip [] name = some name
strip (p ∷ ps) [] = none
strip (p ∷ ps) (n ∷ name) = if p == n then strip ps name else none

unfoldable pub trim_prefix : List ℕ → List ℕ → List ℕ
unfolding strip
trim_prefix prefix name = elim (strip prefix name) [ none ↦ name | some rest ↦ rest ]

module _ {v : Vfs} where
  -- `fi.Extended()`.
  unfoldable pub extends :
      ℕ → Result (List (List ℕ × List ℕ)) → (List (List ℕ × List ℕ) → Body v) → Body v
  extends op (ok attrs) next = next attrs
  extends op (err e) next = plain_reply op (err2status e)
  extends op panic next = λ h st. panic
  extends op stuck next = λ h st. stuck

  unfoldable pub xattr_reply : Option (List ℕ) → Body v
  unfolding reply
  xattr_reply none = plain_reply op_getxattr noxattr
  xattr_reply (some value) = reply op_getxattr nfs4_ok (getxattr4resok ▸ end) ((value, tt), tt)

  -- The time of the change, which `MustIncrement` makes of the time of the file; errors are not told.
  unfoldable pub touches : FileHandle → ℕ → Body v → Body v
  unfolding ask must_increment
  touches current prev next h st = do
    (now, world) ← look_at_clock st.world
    let time = pos (must_increment now prev)
    ask (λ fs. v.chtimes fs current.path time time) (λ _. next) (λ _. next) h
        (record st { world = world })

  -- The handle is read again at each use, and is not tested.
  unfoldable pub changes_xattr :
      ℕ → (FileHandle → v.Fs → v.Disk → Result (Unit {0}) × v.Disk) → Body v → Body v
  unfolding at_current ask fail touches forgets
  changes_xattr op change next = at_current λ current.
      ask (λ fs. v.lstat fs current.path)
        (λ info.
          ask (change current)
            (λ _. touches current (v.mod_time info) (forgets current.handle next))
            (λ e. plain_reply op (err2status e)))
        (fail op)

module _ {v : Vfs} (client_key : List ℕ) (req : Request) where
  unfoldable pub get_xattr : Handler (Files v)
  unfolding reads with_fs at_current stat_cached extends xattr_reply
  get_xattr = reads getxattr4args λ (name, _). with_fs client_key req (
      at_current λ current. stat_cached op_getxattr current λ info.
        extends op_getxattr (v.extended info)
          λ attrs. xattr_reply (v.get_attr attrs (attr_prefix ++ name)))

  unfoldable pub set_xattr : Handler (Files v)
  unfolding reads with_fs changes_xattr reply
  set_xattr = reads setxattr4args λ (option, (name, (value, _))). with_fs client_key req (
      changes_xattr op_setxattr
        (λ current fs. v.set_extended_attr fs current.path (attr_prefix ++ name) value)
        (reply op_setxattr nfs4_ok (setxattr4resok ▸ end) ((zero_val change_info4, tt), tt)))

  unfoldable pub list_xattrs : Handler (Files v)
  unfolding reads with_fs at_current stat_cached extends trim_prefix reply
  list_xattrs = reads listxattrs4args λ (cookie, (max_count, _)).
      if ltb 0 cookie
      then answer op_listxattrs nfs4_ok (listxattrs4resok ▸ end) ((1, ([], (true, tt))), tt)
      else with_fs client_key req (
          at_current λ current. stat_cached op_listxattrs current λ info.
            extends op_listxattrs (v.extended info) λ attrs.
              reply op_listxattrs nfs4_ok (listxattrs4resok ▸ end)
                ((1, (map (λ a. trim_prefix attr_prefix a.0) attrs, (true, tt))), tt))

  unfoldable pub remove_xattr : Handler (Files v)
  unfolding reads with_fs changes_xattr reply
  remove_xattr = reads removexattr4args λ (name, _). with_fs client_key req (
      changes_xattr op_removexattr
        (λ current fs. v.unset_extended_attr fs current.path (attr_prefix ++ name))
        (reply op_removexattr nfs4_ok (removexattr4resok ▸ end) ((zero_val change_info4, tt), tt)))
