-- ===== src/Attrs/Decode.antt =====
-- attrs.go: `decodeFAttrs4`.
use nfs4go.Common.{
  ℕ, zero, suc, ◌+◌, ◌/◌, ◌%◌, Bool, true, false, ◌&&◌, List, [], ◌∷◌, Option, none, some, ltb,
  ◌==◌, if◌then◌else◌, Result, ok, stuck, ◌>>=◌,
}
use nfs4go.Common.Assoc.{lookup}
use nfs4go.Worker.Cache.{second}
use nfs4go.Xdr.Words.{get_bool}
use nfs4go.Xdr.Layout.{
  Layout, Val, uint32, uint64, boolean, opaque, text, uint32s, slice, pointer, zero_val,
}
use nfs4go.Xdr.Codec.{decode}
use nfs4go.Msg.Types.{f_attr4, fsid4, specdata4, nfs_time4, nfs_ace4, nfs_posix_ace4}
use nfs4go.Attrs.Bitmap.{Bitmap, bitmap4_decode}
use nfs4go.Attrs.Numbers.{
  a_supported_attrs, a_type, a_fh_expire_type, a_change, a_size, a_link_support, a_symlink_support,
  a_named_attr, a_fsid, a_unique_handles, a_lease_time, a_rdattr_error, a_filehandle, a_fileid,
  a_mode, a_numlinks, a_owner, a_owner_group, a_rawdev, a_space_used, a_time_access,
  a_time_metadata, a_time_modify, a_time_modify_set, a_mounted_on_fileid, a_suppattr_exclcreat,
  a_xattr_support, a_aclsupport, a_acl, a_posix_default_acl, a_posix_access_acl,
}
use nfs4go.Attrs.Record.{Attr, no_attr}

-- What is read so far, the bytes that are left, and what the clock will show.
abbrev pub Reading : Type 0
Reading = Attr × List ℕ × List ℕ

-- `ar.Read(&v)`, and where the value goes.
unfoldable pub takes : (l : Layout) → (Val l → Attr) → List ℕ → List ℕ → Result Reading
takes l put bs clock = do (v, rest) ← decode l bs; ok (put v, rest, clock)

-- The time of `clock.Now()` in seconds and nanoseconds.
abbrev pub time_of : ℕ → Val nfs_time4
time_of now = (now / second, (now % second, tt))

unfoldable pub set_to_now : Attr → List ℕ → List ℕ → Result Reading
set_to_now attr rest [] = stuck
set_to_now attr rest (now ∷ clock) =
    ok (record attr { time_modify = some (time_of now) }, rest, clock)

abbrev pub time_or_zero : Option (Val nfs_time4) → Val nfs_time4
time_or_zero none = zero_val nfs_time4
time_or_zero (some t) = t

-- `Read(&decAttr.TimeModify)` is given a pointer to a pointer, and so reads one more flag.
unfoldable pub set_time_modify : Attr → List ℕ → List ℕ → Result Reading
unfolding set_to_now takes
set_time_modify attr bs clock = do
  (given, rest) ← get_bool bs
  elim given [
    | true ↦
        takes (pointer nfs_time4) (λ t. record attr { time_modify = some (time_or_zero t) }) rest
          clock
    | false ↦ set_to_now attr rest clock
  ]

-- One attribute; a number that the switch does not have takes no bytes.
unfoldable pub decode_attr : ℕ → Attr → List ℕ → List ℕ → Result Reading
unfolding takes set_time_modify
decode_attr i attr bs clock =
    if i == a_supported_attrs
    then takes uint32s (λ x. record attr { supported_attrs = x }) bs clock
    else (if i == a_type
        then takes uint32 (λ x. record attr { file_type = x }) bs clock
        else (if i == a_fh_expire_type
            then takes uint32 (λ x. record attr { fh_expire_type = x }) bs clock
            else (if i == a_change
                then takes uint64 (λ x. record attr { change = x }) bs clock
                else (if i == a_size
                    then takes uint64 (λ x. record attr { size = some x }) bs clock
                    else (if i == a_link_support
                        then takes boolean (λ x. record attr { link_support = x }) bs clock
                        else (if i == a_symlink_support
                            then takes boolean (λ x. record attr { symlink_support = x }) bs clock
                            else (if i == a_named_attr
                                then takes boolean (λ x. record attr { named_attr = x }) bs clock
                                else (if i == a_fsid
                                    then takes fsid4 (λ x. record attr { fsid = some x }) bs clock
                                    else (if i == a_unique_handles
                                        then takes boolean (λ x. record attr { unique_handles = x })
                                            bs clock
                                        else (if i == a_lease_time
                                            then takes uint32 (λ x. record attr { lease_time = x })
                                                bs clock
                                            else (if i == a_rdattr_error
                                                then takes uint32
                                                    (λ x. record attr { rdattr_error = x }) bs clock
                                                else (if i == a_filehandle
                                                    then takes opaque
                                                        (λ x. record attr { filehandle = x }) bs
                                                        clock
                                                    else (if i == a_fileid
                                                        then takes uint64
                                                            (λ x. record attr { fileid = x }) bs
                                                            clock
                                                        else (if i == a_mode
                                                            then takes uint32
                                                            (λ x. record attr { mode = some x }) bs
                                                            clock
                                                            else (if i == a_numlinks
                                                            then takes uint32
                                                            (λ x. record attr { numlinks = x }) bs
                                                            clock
                                                            else (if i == a_owner
                                                            then takes text
                                                            (λ x. record attr { owner = x }) bs
                                                            clock
                                                            else (if i == a_owner_group
                                                            then takes text
                                                            (λ x. record attr { owner_group = x })
                                                            bs clock
                                                            else (if i == a_rawdev
                                                            then takes specdata4
                                                            (λ x. record attr { rawdev = some x })
                                                            bs clock
                                                            else (if i == a_space_used
                                                            then takes uint64
                                                            (λ x. record attr { space_used = x }) bs
                                                            clock
                                                            else (if i == a_time_access
                                                            then takes nfs_time4
                                                            (λ x. record attr {
                                                            time_access = some x;
                                                            })
                                                            bs clock
                                                            else (if i == a_time_metadata
                                                            then takes nfs_time4
                                                            (λ x. record attr {
                                                            time_metadata = some x;
                                                            })
                                                            bs clock
                                                            else (if i == a_time_modify
                                                            then takes nfs_time4
                                                            (λ x. record attr {
                                                            time_modify = some x;
                                                            })
                                                            bs clock
                                                            else (if i == a_time_modify_set
                                                            then set_time_modify attr bs clock
                                                            else (if i == a_mounted_on_fileid
                                                            then takes uint64
                                                            (λ x. record attr {
                                                            mounted_on_fileid = x;
                                                            })
                                                            bs clock
                                                            else (if i == a_suppattr_exclcreat
                                                            then takes uint32s
                                                            (λ x. record attr {
                                                            suppattr_exclcreat = x;
                                                            })
                                                            bs clock
                                                            else (if i == a_xattr_support
                                                            then takes boolean
                                                            (λ x. record attr { xattr_support = x })
                                                            bs clock
                                                            else (if i == a_aclsupport
                                                            then takes boolean
                                                            (λ x. record attr { aclsupport = x }) bs
                                                            clock
                                                            else (if i == a_acl
                                                            then takes (slice nfs_ace4)
                                                            (λ x. record attr { acl = x }) bs clock
                                                            else (if i == a_posix_default_acl
                                                            then takes (slice nfs_posix_ace4)
                                                            (λ x. record attr {
                                                            posix_default_acl = x;
                                                            })
                                                            bs clock
                                                            else (if i == a_posix_access_acl
                                                            then takes (slice nfs_posix_ace4)
                                                            (λ x. record attr {
                                                            posix_access_acl = x;
                                                            })
                                                            bs clock
                                                            else (ok (
                                                            attr, bs, clock,
                                                            ))))))))))))))))))))))))))))))))

abbrev pub is_on : Option Bool → Bool
is_on none = false
is_on (some on) = on

-- The highest number that is on.
unfoldable pub max_on : ℕ → Bitmap → ℕ
max_on m [] = m
max_on m ((a, on) ∷ idx) = max_on (if on && ltb m a then a else m) idx

-- The rounds `n` that are left of the loop, at the number `i`.
unfoldable pub decode_loop : Bitmap → ℕ → ℕ → Reading → Result (Attr × List ℕ)
unfolding decode_attr
decode_loop idx zero i (attr, bs, clock) = ok (attr, clock)
decode_loop idx (suc n) i (attr, bs, clock) = do
  r ← (if is_on (lookup i idx) then decode_attr i attr bs clock else ok (attr, bs, clock))
  decode_loop idx n (i + 1) r

-- The attributes, and the clock after the looks at it.
unfoldable pub decode_f_attrs4 : List ℕ → Val f_attr4 → Result (Attr × List ℕ)
unfolding decode_loop max_on bitmap4_decode
decode_f_attrs4 clock (mask, (vals, _)) =
    let idx = bitmap4_decode mask in decode_loop idx (suc (max_on 0 idx)) 0 (no_attr, vals, clock)
