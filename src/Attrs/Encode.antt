-- ===== src/Attrs/Encode.antt =====
-- attrs.go: `fileInfoToAttrs`.
use Prim.Native.Nat.{bit_and}
use nfs4go.Common.{
  ℕ, zero, suc, ◌+◌, ◌-◌, ◌*◌, ◌/◌, ◌%◌, ◌^◌, Bool, true, false, ◌&&◌, ◌||◌, List, [], ◌∷◌, ◌++◌,
  map, Option, none, some, ◌==◌, if◌then◌else◌, Result, Error, ok, ◌>>=◌,
}
use nfs4go.Common.Assoc.{lookup}
use nfs4go.Common.Int.{to_uint64}
use nfs4go.Auth.{Creds}
use nfs4go.Vfs.{Vfs}
use nfs4go.Worker.Cache.{second}
use nfs4go.Xdr.Layout.{Val, uint32, uint64, boolean, opaque, text, uint32s, slice}
use nfs4go.Xdr.Codec.{encode}
use nfs4go.Msg.Types.{f_attr4, fsid4, specdata4, nfs_time4, nfs_ace4, nfs_posix_ace4}
use nfs4go.Attrs.Bitmap.{Bitmap, bitmap4_encode, max_int}
use nfs4go.Attrs.Decode.{is_on, time_of}
use nfs4go.Attrs.Numbers.{
  a_supported_attrs, a_type, a_fh_expire_type, a_change, a_size, a_link_support, a_symlink_support,
  a_named_attr, a_fsid, a_unique_handles, a_lease_time, a_rdattr_error, a_acl, a_aclsupport,
  a_case_insensitive, a_case_preserving, a_chown_restricted, a_filehandle, a_fileid, a_maxname,
  a_maxread, a_maxwrite, a_mode, a_no_trunc, a_numlinks, a_owner, a_owner_group, a_rawdev,
  a_space_used, a_time_access, a_time_metadata, a_time_modify, a_mounted_on_fileid,
  a_suppattr_exclcreat, a_xattr_support, a_acl_trueform, a_acl_trueform_scope, a_posix_default_acl,
  a_posix_access_acl, attrs_default_set,
}
use nfs4go.Attrs.Values.{
  client_expiration, handle_id, decimal, fixed_acl, posix_acl, supported_map, file_type, status_of,
  links_of,
}

-- What the code knows of the file, who asks, and the error that goes with it.
pub record About (v : Vfs) : Type 0 where
  pub fh : List ℕ
  pub info : v.Info
  pub error : Option Error
  pub creds : Creds
  pub session_id : ℕ

-- A requested and supported attribute.
abbrev pub is_given : Bitmap → ℕ → Bool
is_given request a = is_on (lookup a request) && is_on (lookup a supported_map)

-- `idxReturn`: each requested number, and whether it is given.
unfoldable pub given_map : Bitmap → Bitmap → Bitmap
given_map request [] = []
given_map request ((a, on) ∷ rest) = (a, is_given request a) ∷ given_map request rest

module _ {v : Vfs} where
  -- The change id depends on the time, the user and the worker.
  unfoldable pub change_id : About v → ℕ
  change_id x =
      (v.mod_time x.info / second % 2 ^ 64 * (2 ^ 32 - 1) + x.creds.uid + x.session_id) % 2 ^ 64

  -- The bytes of one attribute; a supported number that the switch does not have has none.
  unfoldable pub encode_attr : ℕ → About v → Result (List ℕ)
  unfolding encode bitmap4_encode handle_id decimal file_type change_id links_of to_uint64
  encode_attr a x =
      if a == a_supported_attrs || a == a_suppattr_exclcreat
      then (do words ← bitmap4_encode supported_map; encode uint32s words)
      else (if a == a_type
          then encode uint32 (file_type v x.info)
          else (if a == a_fh_expire_type
              then encode uint32 3
              else (if a == a_change
                  then encode uint64 (change_id x)
                  else (if a == a_size
                      then encode uint64 (to_uint64 (v.size x.info))
                      else (if a == a_link_support
                            || a == a_case_preserving
                            || a == a_symlink_support
                            || a == a_chown_restricted
                            || a == a_no_trunc
                          then encode boolean true
                          else (if a == a_named_attr
                                || a == a_case_insensitive
                                || a == a_unique_handles
                              then encode boolean false
                              else (if a == a_fsid
                                  then encode fsid4 (1, (1, tt))
                                  else (if a == a_lease_time
                                      then encode uint32 client_expiration
                                      else (if a == a_rdattr_error
                                          then encode uint32 (status_of x.error)
                                          else (if a == a_aclsupport
                                                || a == a_xattr_support
                                                || a == a_acl_trueform_scope
                                              then encode uint32 1
                                              else (if a == a_acl
                                                  then encode (slice nfs_ace4) fixed_acl
                                                  else (if a == a_filehandle
                                                      then encode opaque x.fh
                                                      else (if a == a_fileid
                                                            || a == a_mounted_on_fileid
                                                          then encode uint64 (handle_id x.fh)
                                                          else (if a == a_maxname
                                                            then encode uint32 255
                                                            else (if a == a_maxread
                                                            || a == a_maxwrite
                                                            then encode uint64 (32 * 1024)
                                                            else (if a == a_mode
                                                            then encode uint32
                                                            (bit_and (v.mode x.info) (2 ^ 9 - 1))
                                                            else (if a == a_numlinks
                                                            then encode uint32 (links_of v x.info)
                                                            else (if a == a_owner
                                                            then encode text
                                                            (decimal (v.uid x.info))
                                                            else (if a == a_owner_group
                                                            then encode text
                                                            (decimal (v.gid x.info))
                                                            else (if a == a_rawdev
                                                            then encode specdata4 (0, (0, tt))
                                                            else (if a == a_space_used
                                                            then encode uint64 (
                                                            (1024 * 4 + to_uint64 (v.size x.info))
                                                            % 2 ^ 64)
                                                            else (if a == a_time_access
                                                            || a == a_time_metadata
                                                            || a == a_time_modify
                                                            then encode nfs_time4
                                                            (time_of (v.mod_time x.info))
                                                            else (if a == a_acl_trueform
                                                            then encode uint32 2
                                                            else (if a == a_posix_default_acl
                                                            then encode (slice nfs_posix_ace4) []
                                                            else (if a == a_posix_access_acl
                                                            then encode (slice nfs_posix_ace4)
                                                            posix_acl
                                                            else (ok []))))))))))))))))))))))))))

  -- The loop from the number `a` on, with `n` rounds left: the bytes of the attributes in this order.
  unfoldable pub encode_loop : Bitmap → ℕ → ℕ → About v → Result (List ℕ)
  unfolding encode_attr
  encode_loop request zero a x = ok []
  encode_loop request (suc n) a x = do
    bs ← (if is_given request a then encode_attr a x else ok [])
    rest ← encode_loop request n (a + 1) x
    ok (bs ++ rest)

  unfoldable pub file_info_to_attrs : Option Bitmap → About v → Result (Val f_attr4)
  unfolding encode_loop given_map bitmap4_encode max_int
  file_info_to_attrs none x = do
    let request = map (λ a. (a, true)) attrs_default_set
    vals ← encode_loop request (suc (max_int 0 request)) 0 x
    mask ← bitmap4_encode (given_map request request)
    ok (mask, (vals, tt))
  file_info_to_attrs (some request) x = do
    vals ← encode_loop request (suc (max_int 0 request)) 0 x
    mask ← bitmap4_encode (given_map request request)
    ok (mask, (vals, tt))
