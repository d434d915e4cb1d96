-- ===== src/Msg/Replies.antt =====
-- msg/structs.go and msg/structs_xdr.go: the layouts of the results of the operations.
use nfs4go.Xdr.Layout.{
  Layout, ◌▸◌, uint32, uint64, boolean, opaque, text, bytes16, uint32s, strings, struct, pointer,
  slice, end,
}
use nfs4go.Msg.Types.{
  f_attr4, dir_list4, secinfo4, server_owner4, nfs_impl_id4, change_info4, state_id4,
  open_delegation4, state_protect4, channel_attrs4,
}

abbrev pub getattr4resok : Layout
getattr4resok = struct (f_attr4 ▸ end)

abbrev pub setclientid4resok : Layout
setclientid4resok = struct (uint64 ▸ uint64 ▸ end)

abbrev pub getfh4resok : Layout
getfh4resok = struct (opaque ▸ end)

abbrev pub access4resok : Layout
access4resok = struct (uint32 ▸ uint32 ▸ end)

abbrev pub readdir4resok : Layout
readdir4resok = struct (uint64 ▸ dir_list4 ▸ end)

abbrev pub secinfo4resok : Layout
secinfo4resok = struct (slice secinfo4 ▸ end)

abbrev pub create4resok : Layout
create4resok = struct (change_info4 ▸ uint32s ▸ end)

abbrev pub open4resok : Layout
open4resok = struct (state_id4 ▸ change_info4 ▸ uint32 ▸ uint32s ▸ open_delegation4 ▸ end)

abbrev pub remove4resok : Layout
remove4resok = struct (change_info4 ▸ end)

abbrev pub commit4resok : Layout
commit4resok = struct (uint64 ▸ end)

abbrev pub write4resok : Layout
write4resok = struct (uint32 ▸ uint32 ▸ uint64 ▸ end)

abbrev pub read4resok : Layout
read4resok = struct (boolean ▸ opaque ▸ end)

abbrev pub rename4resok : Layout
rename4resok = struct (change_info4 ▸ change_info4 ▸ end)

abbrev pub link4resok : Layout
link4resok = struct (change_info4 ▸ end)

abbrev pub readlink4resok : Layout
readlink4resok = struct (text ▸ end)

abbrev pub getxattr4resok : Layout
getxattr4resok = struct (opaque ▸ end)

abbrev pub setxattr4resok : Layout
setxattr4resok = struct (change_info4 ▸ end)

abbrev pub listxattrs4resok : Layout
listxattrs4resok = struct (uint64 ▸ strings ▸ boolean ▸ end)

abbrev pub removexattr4resok : Layout
removexattr4resok = struct (change_info4 ▸ end)

abbrev pub exchange_id4resok : Layout
exchange_id4resok = struct (
    uint64 ▸ uint32 ▸ uint32 ▸ state_protect4 ▸ server_owner4 ▸ opaque ▸ pointer nfs_impl_id4 ▸ end)

abbrev pub create_session4resok : Layout
create_session4resok = struct (bytes16 ▸ uint32 ▸ uint32 ▸ channel_attrs4 ▸ channel_attrs4 ▸ end)

abbrev pub sequence4resok : Layout
sequence4resok = struct (bytes16 ▸ uint32 ▸ uint32 ▸ uint32 ▸ uint32 ▸ uint32 ▸ end)
