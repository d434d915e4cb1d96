-- ===== src/Msg/Args.antt =====
-- msg/structs.go and msg/structs_xdr.go: the layouts of the arguments of the operations.
use nfs4go.Xdr.Layout.{
  Layout, ◌▸◌, uint32, uint64, boolean, opaque, text, bytes16, uint32s, struct, pointer, end,
}
use nfs4go.Msg.Types.{
  f_attr4, nfs_client_id4, cb_client4, client_owner4, nfs_impl_id4, create4type, open_owner4,
  open_how4, state_id4, open_claim4, state_protect4, channel_attrs4,
}

abbrev pub getattr4args : Layout
getattr4args = struct (uint32s ▸ end)

abbrev pub setclientid4args : Layout
setclientid4args = struct (nfs_client_id4 ▸ cb_client4 ▸ uint32 ▸ end)

abbrev pub setclientid_confirm4args : Layout
setclientid_confirm4args = struct (uint64 ▸ uint64 ▸ end)

abbrev pub putfh4args : Layout
putfh4args = struct (opaque ▸ end)

abbrev pub lookup4args : Layout
lookup4args = struct (text ▸ end)

abbrev pub getfh4args : Layout
getfh4args = struct end

abbrev pub access4args : Layout
access4args = struct (uint32 ▸ end)

abbrev pub readdir4args : Layout
readdir4args = struct (uint64 ▸ uint64 ▸ uint32 ▸ uint32 ▸ uint32s ▸ end)

abbrev pub secinfo4args : Layout
secinfo4args = struct (text ▸ end)

abbrev pub renew4args : Layout
renew4args = struct (uint64 ▸ end)

abbrev pub create4args : Layout
create4args = struct (create4type ▸ text ▸ f_attr4 ▸ end)

abbrev pub open4args : Layout
open4args = struct (uint32 ▸ uint32 ▸ uint32 ▸ open_owner4 ▸ open_how4 ▸ open_claim4 ▸ end)

abbrev pub opendg4args : Layout
opendg4args = struct (state_id4 ▸ uint32 ▸ uint32 ▸ uint32 ▸ end)

abbrev pub close4args : Layout
close4args = struct (uint32 ▸ state_id4 ▸ end)

abbrev pub setattr4args : Layout
setattr4args = struct (state_id4 ▸ f_attr4 ▸ end)

abbrev pub remove4args : Layout
remove4args = struct (text ▸ end)

abbrev pub commit4args : Layout
commit4args = struct (uint64 ▸ uint32 ▸ end)

abbrev pub write4args : Layout
write4args = struct (state_id4 ▸ uint64 ▸ uint32 ▸ opaque ▸ end)

abbrev pub read4args : Layout
read4args = struct (state_id4 ▸ uint64 ▸ uint32 ▸ end)

abbrev pub rename4args : Layout
rename4args = struct (text ▸ text ▸ end)

abbrev pub link4args : Layout
link4args = struct (text ▸ end)

abbrev pub getxattr4args : Layout
getxattr4args = struct (text ▸ end)

abbrev pub setxattr4args : Layout
setxattr4args = struct (uint32 ▸ text ▸ opaque ▸ end)

abbrev pub listxattrs4args : Layout
listxattrs4args = struct (uint64 ▸ uint32 ▸ end)

abbrev pub removexattr4args : Layout
removexattr4args = struct (text ▸ end)

abbrev pub exchange_id4args : Layout
exchange_id4args = struct (client_owner4 ▸ uint32 ▸ state_protect4 ▸ pointer nfs_impl_id4 ▸ end)

abbrev pub create_session4args : Layout
create_session4args =
    struct (uint64 ▸ uint32 ▸ uint32 ▸ channel_attrs4 ▸ channel_attrs4 ▸ uint32 ▸ opaque ▸ end)

abbrev pub sequence4args : Layout
sequence4args = struct (bytes16 ▸ uint32 ▸ uint32 ▸ uint32 ▸ boolean ▸ end)
