-- ===== src/Msg/Status.antt =====
-- msg/errors.go: the status codes.
use nfs4go.Common.{
  ℕ, Error, eof, not_exist, permission, invalid, invalid_handle, eisdir, enotdir, enotsup,
  nfs_error,
}

abbrev pub nfs4_ok : ℕ
nfs4_ok = 0

abbrev pub perm : ℕ
perm = 1

abbrev pub noent : ℕ
noent = 2

abbrev pub io : ℕ
io = 5

abbrev pub nxio : ℕ
nxio = 6

abbrev pub access : ℕ
access = 13

abbrev pub exist : ℕ
exist = 17

abbrev pub xdev : ℕ
xdev = 18

abbrev pub notdir : ℕ
notdir = 20

abbrev pub isdir : ℕ
isdir = 21

abbrev pub inval : ℕ
inval = 22

abbrev pub fbig : ℕ
fbig = 27

abbrev pub nospc : ℕ
nospc = 28

abbrev pub rofs : ℕ
rofs = 30

abbrev pub mlink : ℕ
mlink = 31

abbrev pub nametoolong : ℕ
nametoolong = 63

abbrev pub notempty : ℕ
notempty = 66

abbrev pub dquot : ℕ
dquot = 69

abbrev pub stale : ℕ
stale = 70

abbrev pub badhandle : ℕ
badhandle = 10001

abbrev pub bad_cookie : ℕ
bad_cookie = 10003

abbrev pub notsupp : ℕ
notsupp = 10004

abbrev pub toosmall : ℕ
toosmall = 10005

abbrev pub serverfault : ℕ
serverfault = 10006

abbrev pub badtype : ℕ
badtype = 10007

abbrev pub delay : ℕ
delay = 10008

abbrev pub same : ℕ
same = 10009

abbrev pub denied : ℕ
denied = 10010

abbrev pub expired : ℕ
expired = 10011

abbrev pub locked : ℕ
locked = 10012

abbrev pub grace : ℕ
grace = 10013

abbrev pub fhexpired : ℕ
fhexpired = 10014

abbrev pub share_denied : ℕ
share_denied = 10015

abbrev pub wrongsec : ℕ
wrongsec = 10016

abbrev pub clid_inuse : ℕ
clid_inuse = 10017

abbrev pub resource : ℕ
resource = 10018

abbrev pub moved : ℕ
moved = 10019

abbrev pub nofilehandle : ℕ
nofilehandle = 10020

abbrev pub minor_vers_mismatch : ℕ
minor_vers_mismatch = 10021

abbrev pub stale_clientid : ℕ
stale_clientid = 10022

abbrev pub stale_stateid : ℕ
stale_stateid = 10023

abbrev pub old_stateid : ℕ
old_stateid = 10024

abbrev pub bad_stateid : ℕ
bad_stateid = 10025

abbrev pub bad_seqid : ℕ
bad_seqid = 10026

abbrev pub not_same : ℕ
not_same = 10027

abbrev pub lock_range : ℕ
lock_range = 10028

abbrev pub symlink : ℕ
symlink = 10029

abbrev pub restorefh : ℕ
restorefh = 10030

abbrev pub lease_moved : ℕ
lease_moved = 10031

abbrev pub attrnotsupp : ℕ
attrnotsupp = 10032

abbrev pub no_grace : ℕ
no_grace = 10033

abbrev pub reclaim_bad : ℕ
reclaim_bad = 10034

abbrev pub reclaim_conflict : ℕ
reclaim_conflict = 10035

abbrev pub badxdr : ℕ
badxdr = 10036

abbrev pub locks_held : ℕ
locks_held = 10037

abbrev pub openmode : ℕ
openmode = 10038

abbrev pub badowner : ℕ
badowner = 10039

abbrev pub badchar : ℕ
badchar = 10040

abbrev pub badname : ℕ
badname = 10041

abbrev pub bad_range : ℕ
bad_range = 10042

abbrev pub lock_notsupp : ℕ
lock_notsupp = 10043

abbrev pub op_illegal : ℕ
op_illegal = 10044

abbrev pub deadlock : ℕ
deadlock = 10045

abbrev pub file_open : ℕ
file_open = 10046

abbrev pub admin_revoked : ℕ
admin_revoked = 10047

abbrev pub cb_path_down : ℕ
cb_path_down = 10048

abbrev pub noxattr : ℕ
noxattr = 10095

abbrev pub xattr2big : ℕ
xattr2big = 10096

abbrev pub not_only_op : ℕ
not_only_op = 10081

abbrev pub deadsession : ℕ
deadsession = 10078

abbrev pub seq_misordered : ℕ
seq_misordered = 10063

abbrev pub op_not_in_session : ℕ
op_not_in_session = 10071

abbrev pub retry_uncached_rep : ℕ
retry_uncached_rep = 10068

abbrev pub clientid_busy : ℕ
clientid_busy = 10074

-- `Err2Status` of an error; without an error the status is `nfs4_ok`.
unfoldable pub err2status : Error → ℕ
err2status not_exist = noent
err2status Error.exist = exist
err2status permission = perm
err2status invalid = inval
err2status invalid_handle = badhandle
err2status eisdir = isdir
err2status enotdir = notdir
err2status enotsup = notsupp
err2status eof = io
err2status (nfs_error status) = status
err2status _ = serverfault
