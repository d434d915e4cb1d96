-- ===== src/Mux/Run.antt =====
-- mux_v4.go: `Run` and `RunSequence`. A compound reads its operations one by one from the call, and
-- stops after the number that the call announced or after a fatal status.
use nfs4go.Common.{
  ℕ, zero, suc, ◌+◌, ◌-◌, ◌%◌, ◌^◌, Bool, true, false, not, ◌&&◌, List, [], ◌∷◌, Option, none, some,
  ltb, ◌==◌, if◌then◌else◌, set, Result, ok, panic, stuck, ◌>>=◌,
}
use nfs4go.Common.Assoc.{lookup, insert}
use nfs4go.Bufpool.{Buf, copy}
use nfs4go.Clients.Client.{
  Client, Slot, get_slot, max_slot_id, client_id_from_session_id, cache_id_from_session_id,
}
use nfs4go.Clients.Table.{Clients, get}
use nfs4go.Xdr.Layout.{Val, ◌▸◌, uint32, end}
use nfs4go.Msg.Args.{sequence4args}
use nfs4go.Msg.Replies.{sequence4resok}
use nfs4go.Msg.Ops.{
  op_create_session, op_destroy_session, op_sequence, op_bind_conn_to_session, op_exchange_id,
}
use nfs4go.Msg.Status.{
  nfs4_ok, op_not_in_session, not_only_op, deadsession, retry_uncached_rep, seq_misordered,
}
use nfs4go.Mux.State.{Request, State, Handler, read_args, look_at_clock, with_world, with_clients}
use nfs4go.Mux.Output.{
  write_header, write_header_and_single_operation, rewrite_header_if_needed, answer,
}
use nfs4go.Mux.Dispatch.{contains, fatal_statuses, do_operation}

abbrev pub allowed_first_ops41 : List ℕ
allowed_first_ops41 =
    op_create_session ∷ op_destroy_session ∷ op_sequence ∷ op_bind_conn_to_session ∷ op_exchange_id
    ∷ []

abbrev pub is_fatal : ℕ → Bool
is_fatal status = contains fatal_statuses status

-- The reply without any operation run: one status for the code of the first one.
abbrev pub refuse : {F : Type 0} → Request → ℕ → ℕ → State F → Result (State F)
refuse req op status st = do
  out' ← write_header_and_single_operation req op status st.out
  ok (record st { out = out' })

-- A client with one of its slots replaced.
unfoldable pub with_slot : List ℕ → ℕ → Slot → Client → Client
with_slot session_id slot_id slot c =
    let key = cache_id_from_session_id session_id in
    elim (lookup key c.sessions) [
      | none ↦ c
      | some slots ↦ record c { sessions = insert key (set slots slot_id slot) c.sessions }
    ]

-- The slot of a client's session, written through the pointer that SEQUENCE took. The slot of a client
-- that is gone is written too, but the table does not lead to it any more. A session that is gone
-- from a client has handed its buffers back.
unfoldable pub put_slot : List ℕ → ℕ → Slot → Clients → Result Clients
unfolding with_slot
put_slot session_id slot_id slot cs =
    let id = client_id_from_session_id session_id in
    elim (lookup id cs) [
      | none ↦ ok cs
      | some c ↦ elim (get_slot session_id slot_id c) [
        | none ↦ stuck
        | some old ↦ ok (insert id (with_slot session_id slot_id slot c) cs)
      ]
    ]

abbrev pub is_some : {A : Type 0} → Option A → Bool
is_some none = false
is_some (some a) = true

-- What SEQUENCE decides about a slot.
pub data Verdict : Type 0 where
  replay : Buf → Verdict
  refused : ℕ → Verdict
  execute : Slot → Verdict
  nil_buffer : Verdict

unfoldable pub cached : Option Buf → Verdict
cached none = nil_buffer
cached (some b) = replay b

unfoldable pub judge : ℕ → Bool → Slot → Verdict
unfolding cached
judge sequence_id cache_this slot =
    if slot.sequence_id == sequence_id && slot.contains_data
    then cached slot.buf
    else (if slot.sequence_id == sequence_id && not (is_some slot.buf)
        then refused retry_uncached_rep
        else (if not (slot.sequence_id == sequence_id)
              && not ((slot.sequence_id + 1) % 2 ^ 32 == sequence_id)
            then refused seq_misordered
            else execute (record slot {
              sequence_id = sequence_id;
              contains_data = cache_this && is_some slot.buf;
            })))

module _ {F : Type 0} (file_operation : ℕ → Handler F) (req : Request) where
  unfoldable pub operation : Handler F
  unfolding do_operation
  operation st = do (op, st') ← read_args uint32 st; do_operation file_operation req op st'

  -- The loop, with the number of operations that may still run, the last status and the number that ran.
  unfoldable pub run_ops : ℕ → ℕ → ℕ → State F → Result (ℕ × ℕ × State F)
  run_ops zero last_status executed st = ok (last_status, executed, st)
  run_ops (suc left) last_status executed st = elim (is_fatal last_status) [
    | true ↦ ok (last_status, executed, st)
    | false ↦ do (status, st') ← operation st; run_ops left status (executed + 1) st'
  ]

  -- A first operation, the loop over the others, and the header again.
  unfoldable pub run_after : Handler F → State F → Result (State F)
  unfolding run_ops
  run_after first st = do
    header ← write_header req req.ops_count nfs4_ok st.out
    (status, st1) ← first (record st { out = header })
    (last_status, executed, st2) ← run_ops (req.ops_count - 1) status 1 st1
    out' ← rewrite_header_if_needed req executed last_status st2.out
    ok (record st2 { out = out' })

  -- `out.Copy(slot.Buf)`. A buffer that is in the pool again may be anybody's.
  unfoldable pub keep_reply : List ℕ → ℕ → Slot → Buf → State F → Result (State F)
  keep_reply session_id slot_id slot b st = if st.handed_back then stuck else (do
    b' ← copy st.out b
    cs ← put_slot session_id slot_id (record slot { buf = some b' }) st.world.clients
    ok (with_world st (with_clients st.world cs)))

  unfoldable pub finish_sequence : List ℕ → ℕ → Slot → Option Buf → State F → Result (State F)
  unfolding keep_reply
  finish_sequence session_id slot_id slot none st = if slot.contains_data then panic else ok st
  finish_sequence session_id slot_id slot (some b) st =
      if slot.contains_data then keep_reply session_id slot_id slot b st else ok st

  unfoldable pub sequence_reply : Val sequence4args → Handler F
  sequence_reply (session_id, (sequence_id, (slot_id, rest))) st =
      answer op_sequence nfs4_ok (sequence4resok ▸ end)
        ((session_id, (sequence_id, (slot_id, (max_slot_id, (max_slot_id, (0, tt)))))), tt) st

  unfoldable pub by_verdict : Val sequence4args → Verdict → State F → Result (State F)
  unfolding run_after finish_sequence sequence_reply
  by_verdict args (replay b) st = do out' ← copy b st.out; ok (record st { out = out' })
  by_verdict args (refused status) st = refuse req op_sequence status st
  by_verdict args nil_buffer st = panic
  by_verdict (session_id, (sequence_id, (slot_id, rest))) (execute slot) st = do
    cs ← put_slot session_id slot_id slot st.world.clients
    let st1 = with_world st (with_clients st.world cs)
    st2 ←
        run_after (sequence_reply (session_id, (sequence_id, (slot_id, rest))))
          (record st1 { session_id = session_id; slot = some slot })
    finish_sequence session_id slot_id slot slot.buf st2

  unfoldable pub on_slot : Val sequence4args → Option Slot → State F → Result (State F)
  unfolding by_verdict
  on_slot args none st = refuse req op_sequence deadsession st
  on_slot args (some slot) st = by_verdict args (judge args.1.0 args.1.1.1.1.0 slot) st

  unfoldable pub on_client :
      Val sequence4args → Option (Client × Clients) → State F → Result (State F)
  unfolding on_slot
  on_client args none st = refuse req op_sequence deadsession st
  on_client args (some (c, cs)) st =
      on_slot args (get_slot args.0 args.1.1.0 c) (with_world st (with_clients st.world cs))

  unfoldable pub run_sequence : State F → Result (State F)
  unfolding on_client
  run_sequence st = do
    (args, st1) ← read_args sequence4args st
    (now, w) ← look_at_clock st1.world
    on_client args (get now (client_id_from_session_id args.0) w.clients) (with_world st1 w)

  unfoldable pub first_operation : ℕ → State F → Result (State F)
  unfolding run_after run_sequence
  first_operation op st =
      if not (ltb 0 req.minor_ver)
      then run_after (do_operation file_operation req op) st
      else (if not (contains allowed_first_ops41 op)
          then refuse req op op_not_in_session st
          else (if not (op == op_sequence) && ltb 1 req.ops_count
              then refuse req op not_only_op st
              else (if op == op_sequence
                  then run_sequence st
                  else run_after (do_operation file_operation req op) st)))

  unfoldable pub run : State F → Result (State F)
  unfolding first_operation
  run st = do (op, st') ← read_args uint32 st; first_operation op st'
