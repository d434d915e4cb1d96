-- ===== src/Msg/Types.antt =====
-- msg/structs.go, msg/structs_xdr.go, msg/rpc.go and msg/rpc_xdr.go: the layouts of the shared
-- structs. Each lists the fields in the order in which `Decode` and `Encode` name them.
use nfs4go.Xdr.Layout.{
  Layout, Fields, ◌▸◌, uint32, uint64, boolean, opaque, text, uint32s, triple, strings, struct,
  union, chain, pointer, end,
}

abbrev pub auth : Layout
auth = struct (uint32 ▸ opaque ▸ end)

abbrev pub rpc_msg_call : Layout
rpc_msg_call = struct (uint32 ▸ uint32 ▸ uint32 ▸ uint32 ▸ uint32 ▸ uint32 ▸ auth ▸ auth ▸ end)

abbrev pub rpc_msg_reply : Layout
rpc_msg_reply = struct (uint32 ▸ uint32 ▸ uint32 ▸ end)

abbrev pub reject_reply : Layout
reject_reply = struct (uint32 ▸ uint32 ▸ uint32 ▸ end)

abbrev pub fsid4 : Layout
fsid4 = struct (uint64 ▸ uint64 ▸ end)

abbrev pub specdata4 : Layout
specdata4 = struct (uint32 ▸ uint32 ▸ end)

abbrev pub f_attr4 : Layout
f_attr4 = struct (uint32s ▸ opaque ▸ end)

abbrev pub nfs_client_id4 : Layout
nfs_client_id4 = struct (uint64 ▸ opaque ▸ end)

abbrev pub client_addr4 : Layout
client_addr4 = struct (text ▸ text ▸ end)

abbrev pub cb_client4 : Layout
cb_client4 = struct (uint32 ▸ client_addr4 ▸ end)

abbrev pub entry4 : Fields
entry4 = uint64 ▸ text ▸ f_attr4 ▸ end

abbrev pub dir_list4 : Layout
dir_list4 = struct (chain entry4 ▸ boolean ▸ end)

abbrev pub rpc_sec_gss_info : Layout
rpc_sec_gss_info = struct (text ▸ uint32 ▸ uint32 ▸ end)

abbrev pub secinfo4 : Layout
secinfo4 = struct (uint32 ▸ end)

abbrev pub client_owner4 : Layout
client_owner4 = struct (uint64 ▸ opaque ▸ end)

abbrev pub state_protect_ops4 : Layout
state_protect_ops4 = struct (uint32s ▸ uint32s ▸ end)

abbrev pub server_owner4 : Layout
server_owner4 = struct (uint64 ▸ text ▸ end)

abbrev pub nfs_time4 : Layout
nfs_time4 = struct (uint64 ▸ uint32 ▸ end)

abbrev pub nfs_impl_id4 : Layout
nfs_impl_id4 = struct (text ▸ text ▸ nfs_time4 ▸ end)

abbrev pub change_info4 : Layout
change_info4 = struct (boolean ▸ uint64 ▸ uint64 ▸ end)

abbrev pub void : Layout
void = struct end

abbrev pub create4type : Layout
create4type = union (void ▸ void ▸ void ▸ specdata4 ▸ specdata4 ▸ text ▸ void ▸ void ▸ end)

abbrev pub open_owner4 : Layout
open_owner4 = struct (uint64 ▸ text ▸ end)

abbrev pub create_verf_attr : Layout
create_verf_attr = struct (uint64 ▸ f_attr4 ▸ end)

abbrev pub create_how4 : Layout
create_how4 = union (f_attr4 ▸ f_attr4 ▸ uint64 ▸ create_verf_attr ▸ end)

abbrev pub open_how4 : Layout
open_how4 = union (void ▸ create_how4 ▸ end)

abbrev pub state_id4 : Layout
state_id4 = struct (uint32 ▸ triple ▸ end)

abbrev pub open_claim_delegate_cur4 : Layout
open_claim_delegate_cur4 = struct (state_id4 ▸ text ▸ end)

abbrev pub open_claim4 : Layout
open_claim4 =
    union (text ▸ uint32 ▸ open_claim_delegate_cur4 ▸ text ▸ void ▸ state_id4 ▸ void ▸ end)

abbrev pub nfs_ace4 : Layout
nfs_ace4 = struct (uint32 ▸ uint32 ▸ uint32 ▸ text ▸ end)

abbrev pub nfs_posix_ace4 : Layout
nfs_posix_ace4 = struct (uint32 ▸ uint32 ▸ text ▸ end)

abbrev pub nfs_modified_limit4 : Layout
nfs_modified_limit4 = struct (uint32 ▸ uint32 ▸ end)

abbrev pub nfs_space_limit4 : Layout
nfs_space_limit4 = struct (uint32 ▸ uint64 ▸ pointer nfs_modified_limit4 ▸ end)

abbrev pub open_read_delegation4 : Layout
open_read_delegation4 = struct (state_id4 ▸ boolean ▸ nfs_ace4 ▸ end)

abbrev pub open_write_delegation4 : Layout
open_write_delegation4 = struct (state_id4 ▸ boolean ▸ nfs_space_limit4 ▸ nfs_ace4 ▸ end)

abbrev pub open_delegation_none_why4 : Layout
open_delegation_none_why4 = struct (uint32 ▸ end)

abbrev pub open_delegation4 : Layout
open_delegation4 =
    union (void ▸ open_read_delegation4 ▸ open_write_delegation4 ▸ open_delegation_none_why4 ▸ end)

abbrev pub open_delegation_none4 : Layout
open_delegation_none4 = struct (uint32 ▸ end)

abbrev pub ssv_sp_params4 : Layout
ssv_sp_params4 = struct (state_protect_ops4 ▸ strings ▸ strings ▸ uint32 ▸ uint32 ▸ end)

abbrev pub state_protect4 : Layout
state_protect4 = union (void ▸ state_protect_ops4 ▸ ssv_sp_params4 ▸ end)

abbrev pub ssv_prot_info4 : Layout
ssv_prot_info4 = struct (state_protect_ops4 ▸ uint32 ▸ uint32 ▸ uint32 ▸ uint32 ▸ strings ▸ end)

abbrev pub channel_attrs4 : Layout
channel_attrs4 = struct (uint32 ▸ uint32 ▸ uint32 ▸ uint32 ▸ uint32 ▸ uint32 ▸ opaque ▸ end)
