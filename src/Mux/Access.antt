-- ===== src/Mux/Access.antt =====
-- mux_v4.go: ACCESS.
use Prim.Native.Nat.{bit_and, bit_or}
use nfs4go.Common.{ℕ, ◌/◌, ◌^◌, List, [], ◌∷◌, ltb, if◌then◌else◌}
use nfs4go.Vfs.{Vfs}
use nfs4go.Xdr.Layout.{◌▸◌, end}
use nfs4go.Msg.Args.{access4args}
use nfs4go.Msg.Replies.{access4resok}
use nfs4go.Msg.Ops.{op_access}
use nfs4go.Msg.Status.{nfs4_ok}
use nfs4go.Mux.State.{Request, Handler}
use nfs4go.Mux.Files.{Files, Body, reads, need_current, with_fs, stat_cached, reply}

-- The values of `ACCESS4_READ` and its neighbours.
abbrev pub access4_read : ℕ
access4_read = 1

abbrev pub access4_lookup : ℕ
access4_lookup = 2

abbrev pub access4_modify : ℕ
access4_modify = 4

abbrev pub access4_extend : ℕ
access4_extend = 8

abbrev pub access4_delete : ℕ
access4_delete = 16

abbrev pub access4_execute : ℕ
access4_execute = 32

abbrev pub access4_xaread : ℕ
access4_xaread = 64

abbrev pub access4_xawrite : ℕ
access4_xawrite = 128

abbrev pub access4_xalist : ℕ
access4_xalist = 256

-- `|=` of several bits.
unfoldable pub or_all : ℕ → List ℕ → ℕ
or_all bits [] = bits
or_all bits (b ∷ bs) = or_all (bit_or bits b) bs

abbrev pub or_if : ℕ → List ℕ → ℕ → ℕ
or_if flag bs bits = if ltb 0 flag then or_all bits bs else bits

unfoldable pub supported_bits : ℕ
unfolding or_all
supported_bits = or_all access4_read (
    access4_lookup ∷ access4_modify ∷ access4_extend ∷ access4_delete ∷ access4_execute
    ∷ access4_xaread ∷ access4_xawrite ∷ access4_xalist ∷ [])

-- The permissions of the owner decide, whoever asks.
unfoldable pub granted_bits : ℕ → ℕ
unfolding or_all
granted_bits mode =
    let perm = bit_and (mode / 2 ^ 6) 7 in
    or_if (bit_and perm 1) (access4_lookup ∷ access4_execute ∷ []) (
      or_if (bit_and perm 2)
        (access4_modify ∷ access4_extend ∷ access4_delete ∷ access4_xawrite ∷ [])
        (or_if (bit_and perm 4)
          (access4_read ∷ access4_lookup ∷ access4_xaread ∷ access4_xalist ∷ []) 0))

module _ {v : Vfs} where
  unfoldable pub access_reply : ℕ → ℕ → Body v
  unfolding supported_bits granted_bits reply
  access_reply asked mode =
      reply op_access nfs4_ok (access4resok ▸ end)
        ((bit_and supported_bits asked, (bit_and (granted_bits mode) asked, tt)), tt)

module _ {v : Vfs} (client_key : List ℕ) (req : Request) where
  unfoldable pub access : Handler (Files v)
  unfolding reads need_current with_fs stat_cached access_reply
  access = reads access4args λ (asked, _). need_current op_access λ current.
      with_fs client_key req
        (stat_cached op_access current (λ info. access_reply asked (v.mode info)))
