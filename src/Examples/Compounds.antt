-- ===== src/Examples/Compounds.antt =====
-- Compounds of mux_v4.go at which its theorems are applied.
use nfs4go.Common.{
  ℕ, replicate, false, ◌≡◌, refl, true, false, List, [], ◌∷◌, ◌++◌, some, none, ok, arith,
}
use nfs4go.Common.Assoc.{lookup, insert}
use nfs4go.Common.Int.{pos}
use nfs4go.Bufpool.{
  Buf, write, copy, bytes, slice_of, fill, allocate, commit, make_room, grow, copy_at, seek_write,
}
use nfs4go.Bufpool.Contents.{contents}
use nfs4go.Clients.Client.{
  Client, Slot, get_slot, slot_of, client_id_from_session_id, cache_id_from_session_id,
}
use nfs4go.Clients.Table.{get}
use nfs4go.Xdr.Layout.{Val}
use nfs4go.Xdr.Codec.{decode, encode_all}
use nfs4go.Xdr.Words.{
  get_byte_array, read_full, pad, get_uint32, get_bool, big_endian, put_uint32, put_bytes,
  put_byte_array, put_bool,
}
use nfs4go.Msg.Args.{sequence4args}
use nfs4go.Msg.Status.{nfs4_ok}
use nfs4go.Mux.State.{Request, State, Handler, from_buf, read_args, look_at_clock}
use nfs4go.Mux.Output.{
  plain, answer, operation_response, write_header, write_all, rewrite_header_if_needed,
}
use nfs4go.Mux.Dispatch.{contains, do_operation}
use nfs4go.Mux.Run.{
  run, first_operation, run_sequence, put_slot, with_slot, judge, on_client, on_slot, by_verdict,
  run_after, run_ops, sequence_reply, finish_sequence, keep_reply,
}
use nfs4go.Mux.Appends.{IsFresh, header_bytes}
use nfs4go.Mux.Answers.{Answers, answer-Answers}
use nfs4go.Mux.Shapes.{form_of, Shaped, Ensures}
use nfs4go.Mux.Handlers.{do_operation-Shaped}
use nfs4go.Mux.Rewrites.{rewrite_header_lem}
use nfs4go.Mux.Outcome.{Outcome}
use nfs4go.Mux.Compounds.{run-Outcome}
use nfs4go.Mux.Slots.{Keeps}
use nfs4go.Mux.Replay.{Calls, Repeats, run_sequence_again}
use nfs4go.Mux.Retry.{IsNext, run_sequence-retry}
use nfs4go.Examples.Codec.{alice}

-- Operations on files that always succeed and have no data.
abbrev pub succeed : ℕ → Handler (Unit {0})
succeed op st = plain op nfs4_ok st

pub succeed-Answers : (n : ℕ) (s : State (Unit {0})) → IsFresh s.out → Answers s.out (succeed n s)
succeed-Answers n s h = answer-Answers n nfs4_ok _ _ s h

abbrev call_of_alice : Request
call_of_alice = record {
  auth_resp = (0, ([], tt));
  minor_ver = 1;
  tag = [];
  ops_count = 1;
  creds = alice;
}

abbrev pub empty_buf : Buf
empty_buf = record { buf = []; r = 0; w = 0 }

pub empty_buf-IsFresh : IsFresh empty_buf
empty_buf-IsFresh = record { valid = omega arith; unread = refl }

abbrev free_slot : Slot
free_slot = record { slot_id = 0; sequence_id = 0; contains_data = false; buf = some empty_buf }

-- The session of client 5 with the cache id 7.
abbrev session : List ℕ
session = 0 ∷ 0 ∷ 0 ∷ 0 ∷ 0 ∷ 0 ∷ 0 ∷ 5 ∷ 0 ∷ 0 ∷ 0 ∷ 0 ∷ 0 ∷ 0 ∷ 0 ∷ 7 ∷ []

abbrev client_of_alice : Client
client_of_alice = record {
  name = 1 ∷ [];
  verifier = 5;
  creds = alice;
  client_id = 5;
  last_seen = 0;
  confirmed = true;
  confirm_value = 0;
  seq_id = 1;
  busy = pos 0;
  sessions = (7, free_slot ∷ []) ∷ [];
}

abbrev first_args : Val sequence4args
first_args = (session, (1, (0, (0, (true, tt)))))

abbrev first_input : List ℕ
first_input = session ++ 0 ∷ 0 ∷ 0 ∷ 1 ∷ 0 ∷ 0 ∷ 0 ∷ 0 ∷ 0 ∷ 0 ∷ 0 ∷ 0 ∷ 0 ∷ 0 ∷ 0 ∷ 1 ∷ []

abbrev first_call : State (Unit {0})
first_call = record {
  current_handle = none;
  saved_handle = none;
  session_id = replicate 16 0;
  slot = none;
  handed_back = false;
  world = record {
    clients = (5, client_of_alice) ∷ [];
    pool = record { bufs = [] };
    clock = 100 ∷ 101 ∷ [];
    draws = [];
    files = tt;
  };
  input = first_input;
  out = empty_buf;
}

first_call-Calls : Calls succeed call_of_alice first_args first_call
unfolding from_buf decode get_byte_array read_full pad get_uint32 get_bool big_endian
first_call-Calls = record { rest = []; now = 100; later = 101 ∷ []; read = refl; ticks = refl }

unfoldable first_kept : Keeps session 0 free_slot first_call.world.clients
unfolding lookup client_id_from_session_id big_endian get_slot
first_kept = record { client = client_of_alice; found = refl; slot_found = refl }

first_call-IsNext : IsNext first_args free_slot empty_buf
first_call-IsNext = record { next = refl; cache_this = refl; kept = refl; valid = omega arith }

unfoldable first_run :
    (end : State (Unit {0})) × (run_sequence succeed call_of_alice first_call ≡ ok end)
unfolding run_sequence read_args decode get_byte_array read_full pad get_uint32 get_bool
    look_at_clock get lookup insert client_id_from_session_id cache_id_from_session_id big_endian
    get_slot slot_of judge on_client on_slot by_verdict put_slot with_slot run_after run_ops
    write_header write_all encode_all sequence_reply answer operation_response
    rewrite_header_if_needed finish_sequence keep_reply copy bytes slice_of fill allocate commit
    make_room grow write copy_at put_uint32 put_bytes put_byte_array put_bool
first_run = (_, refl)

abbrev second_call : State (Unit {0})
second_call = record first_call {
  world = record first_call.world { clients = first_run.0.world.clients; clock = 200 ∷ [] };
}

second_call-Calls : Calls succeed call_of_alice first_args second_call
unfolding from_buf decode get_byte_array read_full pad get_uint32 get_bool big_endian
second_call-Calls = record { rest = []; now = 200; later = []; read = refl; ticks = refl }

first_left :
    (c : Client) × (lookup (client_id_from_session_id session) first_run.0.world.clients ≡ some c)
    × (c.confirmed ≡ true)
unfolding first_run lookup client_id_from_session_id big_endian
first_left = (_, refl, refl)

run_sequence-retry_example :
    (last : State (Unit {0})) × (run_sequence succeed call_of_alice second_call ≡ ok last)
    × (contents last.out ≡ [] ++ ([] ++ contents first_run.0.out))
    × (last.world.files ≡ tt)
unfolding first_kept
run_sequence-retry_example =
    run_sequence-retry succeed call_of_alice succeed-Answers first_args free_slot empty_buf
      first_call first_run.0 second_call first_call-Calls first_kept refl first_call-IsNext
      empty_buf-IsFresh refl first_run.1 second_call-Calls refl first_left.0 first_left.1
      first_left.2 empty_buf-IsFresh.valid

-- The slot once the first call has run.
abbrev full_slot : Slot
full_slot = record free_slot {
  sequence_id = 1;
  contains_data = true;
  buf = some (record { buf = 9 ∷ []; r = 0; w = 1 });
}

abbrev late_call : State (Unit {0})
late_call = record first_call {
  world = record first_call.world {
    clients = (5, record client_of_alice { sessions = (7, full_slot ∷ []) ∷ [] }) ∷ [];
  };
}

late_call-Calls : Calls succeed call_of_alice first_args late_call
unfolding from_buf decode get_byte_array read_full pad get_uint32 get_bool big_endian
late_call-Calls = record { rest = []; now = 100; later = 101 ∷ []; read = refl; ticks = refl }

unfoldable late_kept : Keeps session 0 full_slot late_call.world.clients
unfolding lookup client_id_from_session_id big_endian get_slot
late_kept = record {
  client = record client_of_alice { sessions = (7, full_slot ∷ []) ∷ [] };
  found = refl;
  slot_found = refl;
}

run_sequence_again_example :
    Repeats succeed call_of_alice (record { buf = 9 ∷ []; r = 0; w = 1 }) late_call
unfolding late_kept
run_sequence_again_example =
    run_sequence_again succeed call_of_alice first_args full_slot
      (record { buf = 9 ∷ []; r = 0; w = 1 }) late_call late_call-Calls late_kept refl refl refl
      refl (omega arith) empty_buf-IsFresh.valid

-- The first call as `Run` gets it.
abbrev whole_call : State (Unit {0})
whole_call = record first_call { input = 0 ∷ 0 ∷ 0 ∷ 53 ∷ first_input }

whole_run : (end : State (Unit {0})) × (run succeed call_of_alice whole_call ≡ ok end)
unfolding run first_operation contains run_sequence read_args decode get_byte_array read_full pad
    get_uint32 get_bool look_at_clock get lookup insert client_id_from_session_id
    cache_id_from_session_id big_endian get_slot slot_of judge on_client on_slot by_verdict put_slot
    with_slot run_after run_ops write_header write_all encode_all sequence_reply answer
    operation_response rewrite_header_if_needed finish_sequence keep_reply copy bytes slice_of fill
    allocate commit make_room grow write copy_at put_uint32 put_bytes put_byte_array put_bool
whole_run = (_, refl)

run-Outcome_example : Outcome call_of_alice whole_call.world.clients whole_call.out whole_run.0.out
run-Outcome_example =
    run-Outcome succeed call_of_alice succeed-Answers whole_call whole_run.0 empty_buf-IsFresh refl
      whole_run.1

-- The header of two announced operations, of which one ran.
abbrev two_announced : Request
two_announced = record call_of_alice { ops_count = 2 }

abbrev with_header : Buf
with_header = record {
  buf =
      0 ∷ 0 ∷ 0 ∷ 0 ∷ 0 ∷ 0 ∷ 0 ∷ 0 ∷ 0 ∷ 0 ∷ 0 ∷ 0 ∷ 0 ∷ 0 ∷ 0 ∷ 0 ∷ 0 ∷ 0 ∷ 0 ∷ 0 ∷ 0 ∷ 0 ∷ 0 ∷ 2
      ∷ 8 ∷ 8 ∷ [];
  r = 0;
  w = 26;
}

with_header-IsFresh : IsFresh with_header
with_header-IsFresh = record { valid = omega arith; unread = refl }

with_header_lem : contents with_header ≡ header_bytes two_announced 2 0 ++ 8 ∷ 8 ∷ []
unfolding header_bytes put_uint32 put_bytes pad
with_header_lem = refl

rewritten : (out : Buf) × (rewrite_header_if_needed two_announced 1 10044 with_header ≡ ok out)
unfolding rewrite_header_if_needed write_header write_all encode_all put_uint32 put_bytes pad write
    make_room copy_at seek_write
rewritten = (_, refl)

rewrite_header_lem_example :
    IsFresh rewritten.0 × (contents rewritten.0 ≡ header_bytes two_announced 1 10044 ++ 8 ∷ 8 ∷ [])
rewrite_header_lem_example =
    rewrite_header_lem two_announced 1 10044 (8 ∷ 8 ∷ []) with_header rewritten.0
      with_header-IsFresh with_header_lem rewritten.1

-- GETFH, without a current file handle.
do_operation-Shaped_example :
    Ensures
      (Shaped (form_of call_of_alice 10) empty_buf)
      (do_operation succeed call_of_alice 10 first_call)
unfolding contains
do_operation-Shaped_example =
    do_operation-Shaped succeed call_of_alice 10 first_call refl empty_buf-IsFresh
