-- ===== src/Msg/Ops.antt =====
-- msg/ops.go: the codes of the operations, and the flags that the operations on clients read.
use nfs4go.Common.{ℕ}

abbrev pub op_access : ℕ
op_access = 3

abbrev pub op_close : ℕ
op_close = 4

abbrev pub op_commit : ℕ
op_commit = 5

abbrev pub op_create : ℕ
op_create = 6

abbrev pub op_delegpurge : ℕ
op_delegpurge = 7

abbrev pub op_delegreturn : ℕ
op_delegreturn = 8

abbrev pub op_getattr : ℕ
op_getattr = 9

abbrev pub op_getfh : ℕ
op_getfh = 10

abbrev pub op_link : ℕ
op_link = 11

abbrev pub op_lock : ℕ
op_lock = 12

abbrev pub op_lockt : ℕ
op_lockt = 13

abbrev pub op_locku : ℕ
op_locku = 14

abbrev pub op_lookup : ℕ
op_lookup = 15

abbrev pub op_lookupp : ℕ
op_lookupp = 16

abbrev pub op_nverify : ℕ
op_nverify = 17

abbrev pub op_open : ℕ
op_open = 18

abbrev pub op_openattr : ℕ
op_openattr = 19

abbrev pub op_open_confirm : ℕ
op_open_confirm = 20

abbrev pub op_open_downgrade : ℕ
op_open_downgrade = 21

abbrev pub op_putfh : ℕ
op_putfh = 22

abbrev pub op_putpubfh : ℕ
op_putpubfh = 23

abbrev pub op_putrootfh : ℕ
op_putrootfh = 24

abbrev pub op_read : ℕ
op_read = 25

abbrev pub op_readdir : ℕ
op_readdir = 26

abbrev pub op_readlink : ℕ
op_readlink = 27

abbrev pub op_remove : ℕ
op_remove = 28

abbrev pub op_rename : ℕ
op_rename = 29

abbrev pub op_renew : ℕ
op_renew = 30

abbrev pub op_restorefh : ℕ
op_restorefh = 31

abbrev pub op_savefh : ℕ
op_savefh = 32

abbrev pub op_secinfo : ℕ
op_secinfo = 33

abbrev pub op_setattr : ℕ
op_setattr = 34

abbrev pub op_setclientid : ℕ
op_setclientid = 35

abbrev pub op_setclientid_confirm : ℕ
op_setclientid_confirm = 36

abbrev pub op_verify : ℕ
op_verify = 37

abbrev pub op_write : ℕ
op_write = 38

abbrev pub op_release_lockowner : ℕ
op_release_lockowner = 39

abbrev pub op_backchannel_ctl : ℕ
op_backchannel_ctl = 40

abbrev pub op_bind_conn_to_session : ℕ
op_bind_conn_to_session = 41

abbrev pub op_exchange_id : ℕ
op_exchange_id = 42

abbrev pub op_create_session : ℕ
op_create_session = 43

abbrev pub op_destroy_session : ℕ
op_destroy_session = 44

abbrev pub op_free_stateid : ℕ
op_free_stateid = 45

abbrev pub op_get_dir_delegation : ℕ
op_get_dir_delegation = 46

abbrev pub op_getdeviceinfo : ℕ
op_getdeviceinfo = 47

abbrev pub op_getdevicelist : ℕ
op_getdevicelist = 48

abbrev pub op_layoutcommit : ℕ
op_layoutcommit = 49

abbrev pub op_layoutget : ℕ
op_layoutget = 50

abbrev pub op_layoutreturn : ℕ
op_layoutreturn = 51

abbrev pub op_secinfo_no_name : ℕ
op_secinfo_no_name = 52

abbrev pub op_sequence : ℕ
op_sequence = 53

abbrev pub op_set_ssv : ℕ
op_set_ssv = 54

abbrev pub op_test_stateid : ℕ
op_test_stateid = 55

abbrev pub op_want_delegation : ℕ
op_want_delegation = 56

abbrev pub op_destroy_clientid : ℕ
op_destroy_clientid = 57

abbrev pub op_reclaim_complete : ℕ
op_reclaim_complete = 58

abbrev pub op_allocate : ℕ
op_allocate = 59

abbrev pub op_copy : ℕ
op_copy = 60

abbrev pub op_copy_notify : ℕ
op_copy_notify = 61

abbrev pub op_deallocate : ℕ
op_deallocate = 62

abbrev pub op_io_advise : ℕ
op_io_advise = 63

abbrev pub op_layouterror : ℕ
op_layouterror = 64

abbrev pub op_layoutstats : ℕ
op_layoutstats = 65

abbrev pub op_offload_cancel : ℕ
op_offload_cancel = 66

abbrev pub op_offload_status : ℕ
op_offload_status = 67

abbrev pub op_read_plus : ℕ
op_read_plus = 68

abbrev pub op_seek : ℕ
op_seek = 69

abbrev pub op_write_same : ℕ
op_write_same = 70

abbrev pub op_clone : ℕ
op_clone = 71

abbrev pub op_getxattr : ℕ
op_getxattr = 72

abbrev pub op_setxattr : ℕ
op_setxattr = 73

abbrev pub op_listxattrs : ℕ
op_listxattrs = 74

abbrev pub op_removexattr : ℕ
op_removexattr = 75

abbrev pub op_illegal : ℕ
op_illegal = 10044

abbrev pub flag_bind_princ_stateid : ℕ
flag_bind_princ_stateid = 0x100

abbrev pub flag_upd_confirmed_rec_a : ℕ
flag_upd_confirmed_rec_a = 0x40000000

abbrev pub flag_confirmed_r : ℕ
flag_confirmed_r = 0x80000000

abbrev pub flag_use_non_pnfs : ℕ
flag_use_non_pnfs = 0x10000

abbrev pub session_flag_persist : ℕ
session_flag_persist = 1

abbrev pub session_flag_conn_back_chan : ℕ
session_flag_conn_back_chan = 2
