-- ===== src/Mux/Attributes.antt =====
-- mux_v4.go: GETATTR, VERIFY and NVERIFY.
use nfs4go.Common.{
  ℕ, Bool, true, not, ◌&&◌, ◌||◌, List, [], ◌∷◌, list_eq, none, some, if◌then◌else◌, ◌>>=◌,
}
use nfs4go.Auth.{Creds}
use nfs4go.Vfs.{Vfs}
use nfs4go.Attrs.Bitmap.{Bitmap, bitmap4_decode}
use nfs4go.Attrs.Numbers.{attrs_supported}
use nfs4go.Attrs.Encode.{About, file_info_to_attrs}
use nfs4go.Xdr.Layout.{Val, ◌▸◌, end}
use nfs4go.Msg.Types.{f_attr4}
use nfs4go.Msg.Args.{getattr4args}
use nfs4go.Msg.Replies.{getattr4resok}
use nfs4go.Msg.Ops.{op_getattr, op_verify, op_nverify}
use nfs4go.Msg.Status.{nfs4_ok, attrnotsupp, not_same, same}
use nfs4go.Mux.State.{FileHandle, Request, Handler}
use nfs4go.Mux.Output.{plain}
use nfs4go.Mux.Dispatch.{contains}
use nfs4go.Mux.Files.{Files, Body, reads, need_current, with_fs, stat_cached, reply, plain_reply}

-- `slices.Contains(AttrsSupported, i)` for each that is on.
unfoldable pub all_supported : Bitmap → Bool
unfolding contains
all_supported [] = true
all_supported ((a, on) ∷ rest) = (not on || contains attrs_supported a) && all_supported rest

module _ {v : Vfs} where
  abbrev about : Creds → FileHandle → v.Info → ℕ → About v
  about creds current info session_id = record {
    fh = current.handle;
    info = info;
    error = none;
    creds = creds;
    session_id = session_id;
  }

  -- `fileInfoToAttrs` of the current file.
  unfoldable pub with_attrs : Bitmap → Creds → FileHandle → v.Info → (Val f_attr4 → Body v) → Body v
  unfolding file_info_to_attrs
  with_attrs request creds current info next h st = do
    attrs ← file_info_to_attrs (some request) (about creds current info h.worker.session_id)
    next attrs h st

  -- The reply if the values are those of the call, and if they are not.
  unfoldable pub compares : ℕ → List ℕ → ℕ → ℕ → Val f_attr4 → Body v
  unfolding list_eq
  compares op asked if_same if_other (mask, (vals, _)) =
      plain_reply op (if list_eq vals asked then if_same else if_other)

module _ {v : Vfs} (client_key : List ℕ) (req : Request) where
  unfoldable pub get_attr : Handler (Files v)
  unfolding reads need_current with_fs stat_cached with_attrs reply bitmap4_decode
  get_attr = reads getattr4args λ (asked, _). need_current op_getattr λ current.
      with_fs client_key req (
        stat_cached op_getattr current λ info.
          with_attrs (bitmap4_decode asked) req.creds current info
            λ attrs. reply op_getattr nfs4_ok (getattr4resok ▸ end) ((attrs, tt), tt))

  unfoldable pub compare : ℕ → ℕ → ℕ → Handler (Files v)
  unfolding reads need_current with_fs stat_cached with_attrs compares all_supported bitmap4_decode
  compare op if_same if_other = reads f_attr4 λ (mask, (vals, _)).
      let request = bitmap4_decode mask in
      if not (all_supported request)
      then plain op attrnotsupp
      else need_current op λ current. with_fs client_key req (
          stat_cached op current
            λ info. with_attrs request req.creds current info (compares op vals if_same if_other))

  unfoldable pub verify : Handler (Files v)
  unfolding compare
  verify = compare op_verify nfs4_ok not_same

  unfoldable pub n_verify : Handler (Files v)
  unfolding compare
  n_verify = compare op_nverify same nfs4_ok
