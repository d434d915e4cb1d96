-- ===== src/Attrs/Values.antt =====
-- attrs.go: the values that `fileInfoToAttrs` computes.
use Prim.Native.Nat.{bit_and}
use nfs4go.Common.{
  ℕ, zero, suc, ◌+◌, ◌-◌, ◌*◌, ◌/◌, ◌%◌, ◌^◌, true, ◌||◌, List, [], ◌∷◌, ◌++◌, map, Option, none,
  some, length, take, drop, replicate, ltb, ◌==◌, if◌then◌else◌, Error,
}
use nfs4go.Vfs.{Vfs}
use nfs4go.Xdr.Layout.{Val, slice}
use nfs4go.Msg.Types.{nfs_ace4, nfs_posix_ace4}
use nfs4go.Msg.Status.{nfs4_ok, err2status}
use nfs4go.Attrs.Bitmap.{Bitmap}
use nfs4go.Attrs.Numbers.{attrs_supported}

-- `FileMode.Type()`: the bits of os.ModeType.
abbrev pub mode_type : ℕ → ℕ
mode_type mode = bit_and mode 0x8f280000

abbrev pub mode_dir : ℕ
mode_dir = 2 ^ 31

abbrev pub mode_symlink : ℕ
mode_symlink = 2 ^ 27

abbrev pub mode_socket : ℕ
mode_socket = 2 ^ 24

-- `NF4REG` and the other types of files.
abbrev pub nf4reg : ℕ
nf4reg = 1

abbrev pub nf4dir : ℕ
nf4dir = 2

abbrev pub nf4blk : ℕ
nf4blk = 3

abbrev pub nf4chr : ℕ
nf4chr = 4

abbrev pub nf4lnk : ℕ
nf4lnk = 5

abbrev pub nf4sock : ℕ
nf4sock = 6

abbrev pub nf4fifo : ℕ
nf4fifo = 7

-- `ClientExpiration` in seconds.
abbrev pub client_expiration : ℕ
client_expiration = 300

-- `binary.LittleEndian`.
unfoldable pub little_endian : List ℕ → ℕ
little_endian [] = 0
little_endian (b ∷ bs) = b + 256 * little_endian bs

-- The last eight bytes of the window, or of one that ends earlier, as soon as they are not all zero.
unfoldable pub window_id : ℕ → List ℕ → ℕ
unfolding little_endian
window_id zero window = 0
window_id (suc more) window =
    let id = little_endian (drop (length window - 8) window) in
    let shorter = window_id more (take (length window - 1) window) in
    if id == 0 then shorter else id

-- The rounds are those in which the window has eight bytes; a file id of 0 becomes 2 ^ 64 - 1.
unfoldable pub handle_id : List ℕ → ℕ
unfolding window_id
handle_id fh =
    let window = (if ltb (length fh) 8 then fh ++ replicate (8 - length fh) 0 else fh) in
    let id = window_id (length window - 7) window in if id == 0 then 2 ^ 64 - 1 else id

-- `fmt.Sprintf("%d", n)`, with fuel for the digits.
unfoldable pub digits : ℕ → ℕ → List ℕ → List ℕ
digits zero n acc = acc
digits (suc fuel) n acc =
    let acc' = (48 + n % 10) ∷ acc in
    let more = digits fuel (n / 10) acc' in if n / 10 == 0 then acc' else more

-- Ten digits are enough for 32 bits.
unfoldable pub decimal : ℕ → List ℕ
unfolding digits
decimal n = digits 10 n []

-- "OWNER@", "GROUP@" and "EVERYONE@".
abbrev pub owner_who : List ℕ
owner_who = b'O' ∷ b'W' ∷ b'N' ∷ b'E' ∷ b'R' ∷ b'@' ∷ []

abbrev pub group_who : List ℕ
group_who = b'G' ∷ b'R' ∷ b'O' ∷ b'U' ∷ b'P' ∷ b'@' ∷ []

abbrev pub everyone_who : List ℕ
everyone_who = b'E' ∷ b'V' ∷ b'E' ∷ b'R' ∷ b'Y' ∷ b'O' ∷ b'N' ∷ b'E' ∷ b'@' ∷ []

abbrev pub read_mask : ℕ
read_mask = 0x20001

abbrev pub write_mask : ℕ
write_mask = 0xe0003

-- `ACE4_IDENTIFIER_GROUP`.
abbrev pub identifier_group : ℕ
identifier_group = 0x40

abbrev pub fixed_acl : Val (slice nfs_ace4)
fixed_acl =
    (0, (0, (write_mask, (owner_who, tt))))
    ∷ (0, (identifier_group, (read_mask, (group_who, tt))))
    ∷ (0, (0, (0, (everyone_who, tt))))
    ∷ []

abbrev pub posix_acl : Val (slice nfs_posix_ace4)
posix_acl = (1, (7, ([], tt))) ∷ (3, (7, ([], tt))) ∷ (6, (0, ([], tt))) ∷ []

abbrev pub supported_map : Bitmap
supported_map = map (λ a. (a, true)) attrs_supported

unfoldable pub file_type : (v : Vfs) → v.Info → ℕ
file_type v info =
    if v.is_dir info || mode_type (v.mode info) == mode_dir
    then nf4dir
    else (if mode_type (v.mode info) == mode_symlink
        then nf4lnk
        else (if mode_type (v.mode info) == mode_socket then nf4sock else nf4reg))

abbrev pub status_of : Option Error → ℕ
status_of none = nfs4_ok
status_of (some e) = err2status e

unfoldable pub links_of : (v : Vfs) → v.Info → ℕ
links_of v info = let n = v.num_links info % 2 ^ 32 in if n == 0 then 1 else n
