-- ===== src/Mux/Replay.antt =====
-- mux_v4.go: the replay of a reply. SEQUENCE keeps the reply of a compound in its slot, and a second
-- call with the same number gets what the slot has.
use nfs4go.Common.{ℕ, ◌≡◌, refl, ap, ◌∙◌, Bool, true, List, ◌∷◌, ◌++◌, some, ==_refl, ok}
use nfs4go.Common.Assoc.{lookup, insert}
use nfs4go.Bufpool.{Buf}
use nfs4go.Bufpool.Contents.{IsValid, contents, contents-copy}
use nfs4go.Clients.Client.{Client, Slot, get_slot, client_id_from_session_id}
use nfs4go.Clients.Table.{Clients, get, get_found}
use nfs4go.Xdr.Layout.{Val}
use nfs4go.Xdr.Codec.{decode}
use nfs4go.Msg.Args.{sequence4args}
use nfs4go.Mux.State.{
  Request, State, Handler, from_buf, read_args, look_at_clock, with_world, with_clients,
}
use nfs4go.Mux.Run.{Verdict, replay, judge, cached, by_verdict, on_slot, on_client, run_sequence}
use nfs4go.Mux.Slots.{Keeps}

judge_again :
    (sequence_id : ℕ) (cache_this : Bool) (slot : Slot) (b : Buf)
    → slot.sequence_id ≡ sequence_id
    → slot.contains_data ≡ true
    → slot.buf ≡ some b
    → judge sequence_id cache_this slot ≡ replay b
unfolding judge cached
judge_again sequence_id cache_this slot b same data_there kept =
    rw (same, ==_refl sequence_id, data_there, kept)

module _ {F : Type 0} (file_operation : ℕ → Handler F) (req : Request) where
  -- A call of SEQUENCE with these arguments, at this time.
  pub record Calls (args : Val sequence4args) (st : State F) : Type 0 where
    pub rest : List ℕ
    pub now : ℕ
    pub later : List ℕ
    pub read : from_buf (decode sequence4args st.input) ≡ ok (args, rest)
    pub ticks : st.world.clock ≡ now ∷ later

  -- The state that a call leaves, with the same files.
  pub record Repeats (b : Buf) (st : State F) : Type 0 where
    pub end : State F
    pub ran : run_sequence file_operation req st ≡ ok end
    pub bytes : contents end.out ≡ contents st.out ++ contents b
    pub same_files : end.world.files ≡ st.world.files

  replayed :
      (b : Buf) (st st' : State F)
      → IsValid b
      → IsValid st.out
      → st'.out ≡ st.out
      → st'.world.files ≡ st.world.files
      → (args : Val sequence4args)
      → run_sequence file_operation req st ≡ by_verdict file_operation req args (replay b) st'
      → Repeats b st
  unfolding by_verdict
  replayed b st st' v u same files args e =
      let (out', made, valid, bytes, r) = contents-copy b st.out v u in
      record {
        end = record st' { out = out' };
        ran = e ∙ rw (same, made);
        bytes = bytes;
        same_files = files;
      }

  unfoldable seen : State F → List ℕ → List ℕ → State F
  seen st rest later = with_world (record st { input = rest }) (record st.world { clock = later })

  run_sequence_read :
      (args : Val sequence4args) (st : State F) (call : Calls args st)
      → run_sequence file_operation req st
        ≡ on_client file_operation req args
            (get call.now (client_id_from_session_id args.0) st.world.clients)
            (seen st call.rest call.later)
  unfolding run_sequence read_args look_at_clock seen
  run_sequence_read args st call = rw (call.read, call.ticks)

  -- The client of a session, seen now.
  unfoldable present : ℕ → Client → Client
  present now c = record c { last_seen = now }

  get_confirmed :
      (now id : ℕ) (cs : Clients) (c : Client)
      → lookup id cs ≡ some c
      → c.confirmed ≡ true
      → get now id cs ≡ some (present now c, insert id (present now c) cs)
  unfolding get get_found present
  get_confirmed now id cs c found confirmed = rw (found, get_found, confirmed)

  on_client_lem :
      (args : Val sequence4args) (now : ℕ) (c : Client) (cs : Clients) (slot : Slot) (v : Verdict)
      (st : State F)
      → get_slot args.0 args.1.1.0 c ≡ some slot
      → judge args.1.0 args.1.1.1.1.0 slot ≡ v
      → on_client file_operation req args (some (present now c, cs)) st
        ≡ by_verdict file_operation req args v (with_world st (with_clients st.world cs))
  unfolding on_client on_slot get_slot present
  on_client_lem args now c cs slot v st found decided = rw (found, on_slot, decided)

  -- A call for a confirmed client does what the slot of its session decides.
  unfoldable pub judged :
      (args : Val sequence4args) → Client → (st : State F) → Calls args st → State F
  unfolding seen present
  judged args c st call =
      let st' = seen st call.rest call.later in
      with_world st' (
        with_clients st'.world
          (insert (client_id_from_session_id args.0) (present call.now c) st.world.clients))

  pub run_sequence_lem :
      (args : Val sequence4args) (slot : Slot) (v : Verdict) (st : State F) (call : Calls args st)
      → (k : Keeps args.0 args.1.1.0 slot st.world.clients) → k.client.confirmed ≡ true
      → judge args.1.0 args.1.1.1.1.0 slot ≡ v
      → run_sequence file_operation req st
        ≡ by_verdict file_operation req args v (judged args k.client st call)
  unfolding judged
  run_sequence_lem args slot v st call k confirmed decided =
      run_sequence_read args st call
      ∙ ap (λ found. on_client file_operation req args found (seen st call.rest call.later))
          (get_confirmed call.now (client_id_from_session_id args.0) st.world.clients k.client
            k.found confirmed)
      ∙ on_client_lem args call.now k.client _ slot v (seen st call.rest call.later) k.slot_found
          decided

  -- Where the slot of a session of a confirmed client has a reply, a call of SEQUENCE with the number
  -- of the slot succeeds: the bytes of the slot are added to the buffer, and the files stay as they
  -- were.
  pub run_sequence_again :
      (args : Val sequence4args) (slot : Slot) (b : Buf) (st : State F)
      → Calls args st
      → (k : Keeps args.0 args.1.1.0 slot st.world.clients) → k.client.confirmed ≡ true
      → slot.sequence_id ≡ args.1.0
      → slot.contains_data ≡ true
      → slot.buf ≡ some b
      → IsValid b
      → IsValid st.out
      → Repeats b st
  unfolding judged seen
  run_sequence_again args slot b st call k confirmed same full kept v u =
      replayed b st (judged args k.client st call) v u refl refl args (
        run_sequence_lem args slot (replay b) st call k confirmed
          (judge_again args.1.0 args.1.1.1.1.0 slot b same full kept))
