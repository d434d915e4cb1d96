-- ===== src/Attrs/Numbers.antt =====
-- attrs.go: the numbers of the attributes, and which are supported.
use nfs4go.Common.{ℕ, List, [], ◌∷◌}

abbrev pub a_supported_attrs : ℕ
a_supported_attrs = 0

abbrev pub a_type : ℕ
a_type = 1

abbrev pub a_fh_expire_type : ℕ
a_fh_expire_type = 2

abbrev pub a_change : ℕ
a_change = 3

abbrev pub a_size : ℕ
a_size = 4

abbrev pub a_link_support : ℕ
a_link_support = 5

abbrev pub a_symlink_support : ℕ
a_symlink_support = 6

abbrev pub a_named_attr : ℕ
a_named_attr = 7

abbrev pub a_fsid : ℕ
a_fsid = 8

abbrev pub a_unique_handles : ℕ
a_unique_handles = 9

abbrev pub a_lease_time : ℕ
a_lease_time = 10

abbrev pub a_rdattr_error : ℕ
a_rdattr_error = 11

abbrev pub a_acl : ℕ
a_acl = 12

abbrev pub a_aclsupport : ℕ
a_aclsupport = 13

abbrev pub a_case_insensitive : ℕ
a_case_insensitive = 16

abbrev pub a_case_preserving : ℕ
a_case_preserving = 17

abbrev pub a_chown_restricted : ℕ
a_chown_restricted = 18

abbrev pub a_filehandle : ℕ
a_filehandle = 19

abbrev pub a_fileid : ℕ
a_fileid = 20

abbrev pub a_maxname : ℕ
a_maxname = 29

abbrev pub a_maxread : ℕ
a_maxread = 30

abbrev pub a_maxwrite : ℕ
a_maxwrite = 31

abbrev pub a_mode : ℕ
a_mode = 33

abbrev pub a_no_trunc : ℕ
a_no_trunc = 34

abbrev pub a_numlinks : ℕ
a_numlinks = 35

abbrev pub a_owner : ℕ
a_owner = 36

abbrev pub a_owner_group : ℕ
a_owner_group = 37

abbrev pub a_rawdev : ℕ
a_rawdev = 41

abbrev pub a_space_used : ℕ
a_space_used = 45

abbrev pub a_time_access : ℕ
a_time_access = 47

abbrev pub a_time_metadata : ℕ
a_time_metadata = 52

abbrev pub a_time_modify : ℕ
a_time_modify = 53

abbrev pub a_time_modify_set : ℕ
a_time_modify_set = 54

abbrev pub a_mounted_on_fileid : ℕ
a_mounted_on_fileid = 55

abbrev pub a_suppattr_exclcreat : ℕ
a_suppattr_exclcreat = 75

abbrev pub a_xattr_support : ℕ
a_xattr_support = 82

abbrev pub a_acl_trueform : ℕ
a_acl_trueform = 88

abbrev pub a_acl_trueform_scope : ℕ
a_acl_trueform_scope = 89

abbrev pub a_posix_default_acl : ℕ
a_posix_default_acl = 90

abbrev pub a_posix_access_acl : ℕ
a_posix_access_acl = 91

abbrev pub attrs_default_set : List ℕ
attrs_default_set =
    a_type ∷ a_fh_expire_type ∷ a_change ∷ a_size ∷ a_fsid ∷ a_rdattr_error ∷ a_filehandle
    ∷ a_fileid ∷ a_mode ∷ a_numlinks ∷ a_owner ∷ a_owner_group ∷ a_rawdev ∷ a_space_used
    ∷ a_time_access ∷ a_time_metadata ∷ a_time_modify ∷ a_mounted_on_fileid ∷ []

abbrev pub attrs_supported : List ℕ
attrs_supported =
    a_supported_attrs ∷ a_type ∷ a_fh_expire_type ∷ a_change ∷ a_size ∷ a_link_support
    ∷ a_symlink_support ∷ a_named_attr ∷ a_fsid ∷ a_unique_handles ∷ a_lease_time ∷ a_aclsupport
    ∷ a_case_insensitive ∷ a_case_preserving ∷ a_rdattr_error ∷ a_chown_restricted ∷ a_filehandle
    ∷ a_fileid ∷ a_maxname ∷ a_maxread ∷ a_maxwrite ∷ a_mode ∷ a_no_trunc ∷ a_numlinks ∷ a_owner
    ∷ a_owner_group ∷ a_rawdev ∷ a_space_used ∷ a_time_access ∷ a_time_metadata ∷ a_time_modify
    ∷ a_mounted_on_fileid ∷ a_suppattr_exclcreat ∷ a_xattr_support ∷ a_acl ∷ a_aclsupport ∷ []
