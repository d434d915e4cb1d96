-- ===== src/Mux/SetAttr.antt =====
-- mux_v4.go: SETATTR and CREATE.
use Prim.Native.Nat.{bit_or}
use nfs4go.Common.{
  ℕ, ◌+◌, ◌-◌, ◌*◌, ◌^◌, Bool, true, false, not, ◌&&◌, ◌||◌, ltb, leb, ◌==◌, List, [], ◌∷◌, ◌++◌,
  Option, none, some, if◌then◌else◌, Result, ok, err, panic, stuck, ◌>>=◌,
}
use nfs4go.Common.Int.{ℤ, pos, sub_ℕ, int64}
use nfs4go.Vfs.{Vfs}
use nfs4go.Worker.Cache.{second}
use nfs4go.Server.Clock.{must_increment}
use nfs4go.Attrs.Numbers.{a_mode, a_owner, a_owner_group, a_size, a_time_modify}
use nfs4go.Attrs.Values.{nf4dir, nf4reg, nf4lnk, nf4blk, nf4chr, nf4fifo, nf4sock, mode_dir}
use nfs4go.Attrs.Record.{Attr}
use nfs4go.Attrs.Decode.{decode_f_attrs4}
use nfs4go.Xdr.Layout.{Val, ◌▸◌, end, uint32s, zero_val}
use nfs4go.Msg.Types.{f_attr4, nfs_time4, change_info4}
use nfs4go.Msg.Args.{setattr4args, create4args}
use nfs4go.Msg.Replies.{create4resok}
use nfs4go.Msg.Ops.{op_setattr, op_create}
use nfs4go.Msg.Status.{nfs4_ok, inval, attrnotsupp, serverfault, notsupp, badtype, err2status}
use nfs4go.Msg.Status
use nfs4go.Mux.State.{FileHandle, Request, State, Handler, look_at_clock}
use nfs4go.Mux.Output.{plain}
use nfs4go.Mux.Files.{
  Files, Body, reads, need_current, with_fs, ask, fail, reply, plain_reply, forgets, moves,
}
use nfs4go.Mux.Paths.{is_empty}

-- `strconv.ParseUint(text, 10, 32)`; `none` is an error.
unfoldable pub parse_digits : ℕ → List ℕ → Option ℕ
parse_digits n [] = some n
parse_digits n (c ∷ cs) =
    let more = parse_digits (n * 10 + (c - 48)) cs in if leb 48 c && leb c 57 then more else none

unfoldable pub parse_uint32 : List ℕ → Option ℕ
unfolding parse_digits
parse_uint32 [] = none
parse_uint32 (c ∷ cs) = elim (parse_digits 0 (c ∷ cs)) [
  | none ↦ none
  | some n ↦ if ltb n (2 ^ 32) then some n else none
]

-- `time.Unix(int64(seconds), int64(nanoseconds))`, in nanoseconds.
unfoldable pub unix : Val nfs_time4 → ℤ
unix (seconds, (nanoseconds, _)) =
    if ltb seconds (2 ^ 63)
    then pos (seconds * second + nanoseconds)
    else sub_ℕ nanoseconds ((2 ^ 64 - seconds) * second)

abbrev pub agree : Bool → Bool → Bool
agree true b = b
agree false b = not b

abbrev pub time_to_set : ℕ → ℕ → Option (Val nfs_time4) → ℤ
time_to_set now again none = pos (must_increment again now)
time_to_set now again (some t) = unix t

unfoldable pub dir_mode : Option ℕ → ℕ
dir_mode none = bit_or 493 mode_dir
dir_mode (some mode) = bit_or mode mode_dir

module _ {v : Vfs} where
  abbrev pub with_clock : State (Files v) → List ℕ → State (Files v)
  with_clock st clock = record st { world = record st.world { clock = clock } }

  unfoldable pub decoded : ℕ → Result (Attr × List ℕ) → (Attr → Body v) → Body v
  decoded op (ok (attr, clock)) next h st = next attr h (with_clock st clock)
  decoded op (err e) next h st = plain_reply op (err2status e) h st
  decoded op panic next h st = panic
  decoded op stuck next h st = stuck

  -- `decodeFAttrs4`, with the reply for an error.
  unfoldable pub decodes : ℕ → Val f_attr4 → (Attr → Body v) → Body v
  unfolding decode_f_attrs4 decoded
  decodes op attrs next h st = decoded op (decode_f_attrs4 st.world.clock attrs) next h st

  unfoldable pub decoded_first :
      ℕ → Result (Attr × List ℕ) → (Attr → Handler (Files v)) → Handler (Files v)
  decoded_first op (ok (attr, clock)) next st = next attr (with_clock st clock)
  decoded_first op (err e) next st = plain op (err2status e) st
  decoded_first op panic next st = panic
  decoded_first op stuck next st = stuck

  -- The same before `x.FS`.
  unfoldable pub decodes_first : ℕ → Val f_attr4 → (Attr → Handler (Files v)) → Handler (Files v)
  unfolding decode_f_attrs4 decoded_first
  decodes_first op attrs next st = decoded_first op (decode_f_attrs4 st.world.clock attrs) next st

  unfoldable pub sets_mode : FileHandle → Option ℕ → (List ℕ → Body v) → Body v
  unfolding ask fail
  sets_mode current none next = next []
  sets_mode current (some mode) next =
      ask (λ fs. v.chmod fs current.path mode) (λ _. next (a_mode ∷ [])) (fail op_setattr)

  -- The owner and the group of the file, if just one of them is to be set.
  unfoldable pub gets_owners : FileHandle → Attr → (ℕ → ℕ → Body v) → Body v
  unfolding ask fail
  gets_owners current attr next =
      if agree (is_empty attr.owner) (is_empty attr.owner_group)
      then next 0 0
      else ask (λ fs. v.lstat fs current.path) (λ info. next (v.uid info) (v.gid info))
          (fail op_setattr)

  unfoldable pub parsed : Option ℕ → (ℕ → Body v) → Body v
  parsed none next = plain_reply op_setattr serverfault
  parsed (some n) next = next n

  -- A name that is given replaces the number, and its attribute joins those that changed.
  unfoldable pub names : List ℕ → ℕ → ℕ → List ℕ → (ℕ → List ℕ → Body v) → Body v
  unfolding parse_uint32 parsed
  names name old a changed next =
      if is_empty name
      then next old changed
      else parsed (parse_uint32 name) (λ n. next n (changed ++ a ∷ []))

  unfoldable pub sets_owners : FileHandle → Attr → List ℕ → (List ℕ → Body v) → Body v
  unfolding ask fail gets_owners names
  sets_owners current attr changed next = gets_owners current attr λ uid gid.
      names attr.owner uid a_owner changed λ uid' changed'.
        names attr.owner_group gid a_owner_group changed' λ gid' changed''.
          if is_empty attr.owner && is_empty attr.owner_group
          then next changed''
          else ask (λ fs. v.chown fs current.path uid' gid') (λ _. next changed'') (fail op_setattr)

  unfoldable pub sets_size : FileHandle → Option ℕ → List ℕ → (List ℕ → Body v) → Body v
  unfolding ask fail int64
  sets_size current none changed next = next changed
  sets_size current (some size) changed next =
      ask (λ fs. v.truncate fs current.path (int64 size)) (λ _. next (changed ++ a_size ∷ []))
        (fail op_setattr)

  -- The clock is read twice; the time is set also where no time is given.
  unfoldable pub sets_time : FileHandle → Attr → List ℕ → (List ℕ → Body v) → Body v
  unfolding ask fail must_increment unix
  sets_time current attr changed next h st = do
    (now, world) ← look_at_clock st.world
    (again, world') ← look_at_clock world
    let time = time_to_set now again attr.time_metadata
    ask (λ fs. v.chtimes fs current.path time time) (λ _. next (changed ++ a_time_modify ∷ []))
        (fail op_setattr) h (record st { world = world' })

  unfoldable pub set_attr_reply : List ℕ → Body v
  unfolding reply
  set_attr_reply changed =
      if is_empty changed
      then plain_reply op_setattr attrnotsupp
      else reply op_setattr nfs4_ok (uint32s ▸ end) (changed, tt)

  -- The switch on the type of the new file.
  unfoldable pub makes : ℕ → List ℕ → Option ℕ → List ℕ → Body v → Body v
  unfolding ask fail dir_mode
  makes obj_type link mode path next =
      if obj_type == nf4dir
      then ask (λ fs. v.mkdir fs path (dir_mode mode)) (λ _. next) (fail op_create)
      else (if obj_type == nf4reg
          then plain_reply op_create Status.op_illegal
          else (if obj_type == nf4lnk
              then ask (λ fs. v.symlink fs link path) (λ _. next) (fail op_create)
              else (if (obj_type == nf4blk || obj_type == nf4chr)
                    || (obj_type == nf4fifo || obj_type == nf4sock)
                  then plain_reply op_create notsupp
                  else plain_reply op_create badtype)))

module _ {v : Vfs} (client_key : List ℕ) (req : Request) where
  unfoldable pub set_attr : Handler (Files v)
  unfolding reads need_current with_fs forgets decodes sets_mode sets_owners sets_size sets_time
      set_attr_reply
  set_attr = reads setattr4args λ (state_id, (attrs, _)). need_current op_setattr λ current.
      with_fs client_key req (
        forgets current.handle (
          decodes op_setattr attrs λ attr. sets_mode current attr.mode λ changed.
            sets_owners current attr changed λ changed'.
              sets_size current attr.size changed'
                λ changed''. sets_time current attr changed'' set_attr_reply))

  unfoldable pub create : Handler (Files v)
  unfolding reads need_current decodes_first with_fs makes forgets ask fail moves reply
  create =
      reads create4args
        λ ((obj_type, (v0, (v1, (v2, (v3, (v4, (link, v6))))))), (name, (attrs, _))).
          if is_empty name
          then plain op_create inval
          else need_current op_create λ current.
            let path = v.join current.path name in
            decodes_first op_create attrs λ attr. with_fs client_key req (
              makes obj_type link attr.mode path (
                forgets current.handle (
                  ask (λ fs. v.handle fs path)
                    (λ fh.
                      moves (record { handle = fh; path = path })
                        (reply op_create nfs4_ok (create4resok ▸ end)
                          ((zero_val change_info4, (a_mode ∷ [], tt)), tt)))
                    (fail op_create))))
