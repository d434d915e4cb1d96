-- ===== src/Attrs/Record.antt =====
-- attrs.go: `Attr`, the attributes that a client gives.
use nfs4go.Common.{ℕ, Bool, false, List, [], Option, none}
use nfs4go.Xdr.Layout.{Val}
use nfs4go.Msg.Types.{fsid4, specdata4, nfs_time4, nfs_ace4, nfs_posix_ace4}

-- `none` is a nil pointer.
pub record Attr : Type 0 where
  pub supported_attrs : List ℕ
  pub file_type : ℕ
  pub fh_expire_type : ℕ
  pub change : ℕ
  pub size : Option ℕ
  pub link_support : Bool
  pub symlink_support : Bool
  pub named_attr : Bool
  pub fsid : Option (Val fsid4)
  pub unique_handles : Bool
  pub lease_time : ℕ
  pub rdattr_error : ℕ
  pub filehandle : List ℕ
  pub fileid : ℕ
  pub mode : Option ℕ
  pub numlinks : ℕ
  pub owner : List ℕ
  pub owner_group : List ℕ
  pub rawdev : Option (Val specdata4)
  pub space_used : ℕ
  pub time_access : Option (Val nfs_time4)
  pub time_metadata : Option (Val nfs_time4)
  pub time_modify : Option (Val nfs_time4)
  pub mounted_on_fileid : ℕ
  pub suppattr_exclcreat : List ℕ
  pub xattr_support : Bool
  pub aclsupport : Bool
  pub acl : List (Val nfs_ace4)
  pub posix_default_acl : List (Val nfs_posix_ace4)
  pub posix_access_acl : List (Val nfs_posix_ace4)

abbrev pub no_attr : Attr
no_attr = record {
  supported_attrs = [];
  file_type = 0;
  fh_expire_type = 0;
  change = 0;
  size = none;
  link_support = false;
  symlink_support = false;
  named_attr = false;
  fsid = none;
  unique_handles = false;
  lease_time = 0;
  rdattr_error = 0;
  filehandle = [];
  fileid = 0;
  mode = none;
  numlinks = 0;
  owner = [];
  owner_group = [];
  rawdev = none;
  space_used = 0;
  time_access = none;
  time_metadata = none;
  time_modify = none;
  mounted_on_fileid = 0;
  suppattr_exclcreat = [];
  xattr_support = false;
  aclsupport = false;
  acl = [];
  posix_default_acl = [];
  posix_access_acl = [];
}
