-- ===== src/Mux/OpenPlan.antt =====
-- mux_v4.go: the first part of OPEN: the number of the request, the flags and the mode.
use Prim.Native.Nat.{bit_and, bit_or}
use nfs4go.Common.{
  ℕ, ◌+◌, ◌*◌, ◌%◌, ◌^◌, Bool, true, false, ◌&&◌, ltb, ◌==◌, List, Option, none, some,
  if◌then◌else◌, bad_create_mode, Result, ok, err, panic, ◌>>=◌,
}
use nfs4go.Attrs.Decode.{decode_f_attrs4}
use nfs4go.Clients.Client.{Slot, max_slot_id, client_id_from_session_id}
use nfs4go.Xdr.Layout.{Val}
use nfs4go.Msg.Types.{f_attr4, create_how4, open_how4}

-- Flags of package os.
abbrev pub o_wronly : ℕ
o_wronly = 1

abbrev pub o_rdwr : ℕ
o_rdwr = 2

abbrev pub o_create : ℕ
o_create = 0x40

abbrev pub o_excl : ℕ
o_excl = 0x80

abbrev pub o_trunc : ℕ
o_trunc = 0x200

-- `OPEN4_CREATE` and the create modes.
abbrev pub open4_create : ℕ
open4_create = 1

abbrev pub unchecked4 : ℕ
unchecked4 = 0

abbrev pub guarded4 : ℕ
guarded4 = 1

abbrev pub exclusive4 : ℕ
exclusive4 = 2

abbrev pub exclusive4_1 : ℕ
exclusive4_1 = 3

-- `CLAIM_NULL` and the other claims.
abbrev pub claim_null : ℕ
claim_null = 0

abbrev pub claim_previous : ℕ
claim_previous = 1

abbrev pub claim_delegate_cur : ℕ
claim_delegate_cur = 2

abbrev pub claim_delegate_prev : ℕ
claim_delegate_prev = 3

abbrev pub claim_fh : ℕ
claim_fh = 4

abbrev pub claim_deleg_cur_fh : ℕ
claim_deleg_cur_fh = 5

abbrev pub preserve_unlinked : ℕ
preserve_unlinked = 8

-- The number of an OPEN of version 4.1: of its slot and the sequence number in it.
unfoldable pub open_seq_id : ℕ → ℕ → ℕ
open_seq_id sequence_id slot_id = (sequence_id * max_slot_id + slot_id) % 2 ^ 32

-- The client and the number of an OPEN; before SEQUENCE there is no slot.
unfoldable pub open_ids : ℕ → List ℕ → Option Slot → ℕ → ℕ → Result (ℕ × ℕ)
unfolding open_seq_id client_id_from_session_id
open_ids minor_ver session_id none client_id seq_id =
    if ltb 0 minor_ver then panic else ok (client_id, seq_id)
open_ids minor_ver session_id (some slot) client_id seq_id =
    if ltb 0 minor_ver
    then ok (client_id_from_session_id session_id, open_seq_id slot.sequence_id slot.slot_id)
    else ok (client_id, seq_id)

unfoldable pub access_flag : ℕ → ℕ
access_flag share_access =
    let share = bit_and share_access 3 in
    if share == 2 then o_wronly else (if share == 3 then o_rdwr else 0)

-- What the first part settles: the flags, the mode of a new file, and the clock after it.
abbrev pub Plan : Type 0
Plan = ℕ × ℕ × List ℕ

-- `os.FileMode(*decAttrs.Mode) & os.ModePerm`.
unfoldable pub perm_of : Option ℕ → Result ℕ
perm_of none = panic
perm_of (some mode) = ok (bit_and mode 511)

unfoldable pub plan_attrs : List ℕ → ℕ → Bool → Val f_attr4 → Result Plan
unfolding decode_f_attrs4 perm_of
plan_attrs clock flag may_truncate attrs = do
  (attr, clock') ← decode_f_attrs4 clock attrs
  mode ← perm_of attr.mode
  ok (
    if may_truncate && (elim attr.size [ none ↦ false | some n ↦ n == 0 ])
        then bit_or flag o_trunc
        else flag,
    mode,
    clock',
  )

unfoldable pub create_plan : List ℕ → ℕ → Val create_how4 → Result Plan
unfolding plan_attrs
create_plan clock flag (mode, (unchecked, (guarded, (verf, ((verf41, (attrs41, _)), _))))) =
    if mode == exclusive4
    then ok (bit_or flag o_excl, 420, clock)
    else (if mode == guarded4
        then plan_attrs clock (bit_or flag o_excl) true guarded
        else (if mode == unchecked4
            then plan_attrs clock flag false unchecked
            else (if mode == exclusive4_1
                then plan_attrs clock (bit_or flag o_excl) false attrs41
                else err bad_create_mode)))

unfoldable pub open_plan : List ℕ → ℕ → Val open_how4 → Result Plan
unfolding create_plan access_flag
open_plan clock share_access (how, (_, (create_how, _))) =
    if how == open4_create
    then create_plan clock (bit_or (access_flag share_access) o_create) create_how
    else ok (access_flag share_access, 420, clock)
