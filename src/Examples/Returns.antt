-- ===== src/Examples/Returns.antt =====
-- A compound of four operations, the third of which is fatal, over the file system of Examples/Workers.
use nfs4go.Common.{ℕ, refl, false, List, [], ◌∷◌, none, arith, replicate, list_eq}
use nfs4go.Common.Assoc
use nfs4go.Common.Keyed
use nfs4go.Xdr.Codec.{encode_all}
use nfs4go.Xdr.Words.{put_uint32}
use nfs4go.Clients.Client.{draw}
use nfs4go.Worker.Cache.{new_cache}
use nfs4go.Worker.Lifecycle
use nfs4go.Server.Workers.{
  session_key, get_worker, found_worker, find_worker, new_worker, put_worker,
}
use nfs4go.Mux.State.{Request, State, look_at_clock}
use nfs4go.Mux.Output.{answer, operation_response, write_all}
use nfs4go.Mux.Handles.{get_fh, get_handle}
use nfs4go.Mux.Dispatch.{contains, do_operation, other_operation, not_implemented}
use nfs4go.Mux.Files.{Files, reply, with_fs, with_worker, shut, ask, asked, moves}
use nfs4go.Mux.Paths.{put_root, put_root_fh}
use nfs4go.Mux.FileSwitch.{file_operation, file_operation-Answers}
use nfs4go.Mux.Returns.{Serves, ServesAll, at_fatal, one_more, Ended, headed, run-Ended}
use nfs4go.Examples.Compounds.{empty_buf, empty_buf-IsFresh}
use nfs4go.Examples.Workers.{toy, user}

abbrev key : List ℕ
key = b'k' ∷ []

abbrev four_operations : Request
four_operations = record {
  auth_resp = (0, ([], tt));
  minor_ver = 0;
  tag = [];
  ops_count = 4;
  creds = user;
}

-- PUTROOTFH, GETFH, an illegal code, and GETFH again, which does not run.
abbrev begun : State (Files toy)
begun = record {
  current_handle = none;
  saved_handle = none;
  session_id = replicate 16 0;
  slot = none;
  handed_back = false;
  world = record {
    clients = [];
    pool = record { bufs = [] };
    clock = 5 ∷ 6 ∷ [];
    draws = 7 ∷ [];
    files = record {
      server = record { heap = []; workers = []; cleanups = []; waiting = 0 };
      disk = 0;
    };
  };
  input = 0 ∷ 0 ∷ 0 ∷ 24 ∷ 0 ∷ 0 ∷ 0 ∷ 10 ∷ 0 ∷ 0 ∷ 0 ∷ 2 ∷ 0 ∷ 0 ∷ 0 ∷ 10 ∷ [];
  out = empty_buf;
}

-- An operation, with the status and the state that it gives.
abbrev Served : ℕ → State (Files toy) → Type 0
Served op st =
    (status : ℕ) × (st' : State (Files toy)) × Serves (file_operation key four_operations)
      four_operations op st status st'

rooted : Served 24 (headed (file_operation key four_operations) four_operations begun)
unfolding contains do_operation file_operation put_root_fh put_root with_fs with_worker shut ask
    asked moves reply look_at_clock get_worker session_key list_eq found_worker find_worker
    Assoc.lookup Keyed.lookup Assoc.insert Keyed.insert new_worker Lifecycle.new new_cache draw
    put_worker Lifecycle.close answer operation_response write_all encode_all put_uint32
rooted = (
  _,
  _,
  record {
    rest = 0 ∷ 0 ∷ 0 ∷ 10 ∷ 0 ∷ 0 ∷ 0 ∷ 2 ∷ 0 ∷ 0 ∷ 0 ∷ 10 ∷ [];
    small = omega arith;
    next = refl;
    ran = refl;
  },
)

told : Served 10 rooted.1
unfolding rooted contains do_operation other_operation get_fh get_handle answer operation_response
    write_all encode_all put_uint32
told = (
  _,
  _,
  record {
    rest = 0 ∷ 0 ∷ 0 ∷ 2 ∷ 0 ∷ 0 ∷ 0 ∷ 10 ∷ [];
    small = omega arith;
    next = refl;
    ran = refl;
  },
)

stopped : Served 2 told.1
unfolding rooted told contains do_operation other_operation not_implemented answer
    operation_response write_all encode_all put_uint32
stopped =
    (_, _, record { rest = 0 ∷ 0 ∷ 0 ∷ 10 ∷ []; small = omega arith; next = refl; ran = refl })

others :
    ServesAll
      (file_operation key four_operations)
      four_operations
      (10 ∷ 2 ∷ 10 ∷ [])
      rooted.0
      rooted.1
      stopped.0
      2
      stopped.1
unfolding rooted told stopped contains
others =
    one_more 10 _ _ _ _ _ _ _ _ refl told.2
      (one_more 2 _ _ _ _ _ _ _ _ refl stopped.2 (at_fatal 10 [] _ _ refl))

run-Ended_example :
    Ended (file_operation key four_operations) four_operations 3 stopped.0 begun stopped.1
run-Ended_example =
    run-Ended (file_operation key four_operations) four_operations
      (file_operation-Answers key four_operations) 24 (10 ∷ 2 ∷ 10 ∷ []) rooted.0 stopped.0 2 begun
      rooted.1 stopped.1 refl refl empty_buf-IsFresh refl rooted.2 others
