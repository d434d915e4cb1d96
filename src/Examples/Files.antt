-- ===== src/Examples/Files.antt =====
-- The operations on files of mux_v4.go at concrete inputs, over the file system of Examples/Workers.
use nfs4go.Common.{replicate, ℕ, ◌≡◌, ◌↔◌, ◌⊎◌, ◌+◌, refl, false, none, [], ◌∷◌, ok}
use nfs4go.Common.Assoc.{lookup, erase}
use nfs4go.Common.Keyed
use nfs4go.Bufpool.{write, make_room, grow, copy_at}
use nfs4go.Clients.Client.{done}
use nfs4go.Worker.Cache.{invalidate}
use nfs4go.Worker.Files.{contains, is_removed_file, remove_file, remove_found}
use nfs4go.Xdr.Words.{put_uint32, put_byte_array}
use nfs4go.Xdr.Codec.{encode_all}
use nfs4go.Mux.Output.{answer, operation_response, write_all}
use nfs4go.Mux.Files.{reply, forgets, ask, asked}
use nfs4go.Mux.OpenFiles.{if_removed, removes_file, found_file, close_file}
use nfs4go.Common.Int.{pos}
use nfs4go.Attrs.FileId.{file_id}
use nfs4go.Worker.State.{File, whole}
use nfs4go.Msg.Ops.{op_putrootfh}
use nfs4go.Msg.Status.{nfs4_ok}
use nfs4go.Mux.State.{Request, State}
use nfs4go.Mux.Files.{Files, Held}
use nfs4go.Mux.Answers.{Answers}
use nfs4go.Mux.OpenFiles.{close_body, closed_reply}
use nfs4go.Mux.OpenPlan.{open_seq_id}
use nfs4go.Mux.Closes.{close_again}
use nfs4go.Mux.FileSwitch.{file_operation, file_operation-Answers}
use nfs4go.Examples.Compounds.{empty_buf, empty_buf-IsFresh}
use nfs4go.Examples.Workers.{toy, user}

Clash : ℕ → ℕ → ℕ → ℕ → Type 0
Clash s i t j = (open_seq_id s i ≡ open_seq_id t j) ↔ (
    ((s ≡ t) × (i ≡ j)) ⊎ (((i ≡ 15) × (j ≡ 0) × (t ≡ s + 1)) ⊎ ((j ≡ 15) × (i ≡ 0) × (s ≡ t + 1))))

abbrev request : Request
request = record { auth_resp = (0, ([], tt)); minor_ver = 0; tag = []; ops_count = 1; creds = user }

abbrev state : State (Files toy)
state = record {
  current_handle = none;
  saved_handle = none;
  session_id = replicate 16 0;
  slot = none;
  handed_back = false;
  world = record {
    clients = [];
    pool = record { bufs = [] };
    clock = 5 ∷ 6 ∷ [];
    draws = 7 ∷ [];
    files = record {
      server = record { heap = []; workers = []; cleanups = []; waiting = 0 };
      disk = 0;
    };
  };
  input = [];
  out = empty_buf;
}

file_operation-Answers_example :
    Answers empty_buf (file_operation {v = toy} (b'k' ∷ []) request op_putrootfh state)
file_operation-Answers_example =
    file_operation-Answers (b'k' ∷ []) request op_putrootfh state empty_buf-IsFresh

abbrev other : ℕ × ℕ × ℕ
other = (1, 2, 3)

abbrev file : File toy
file = record { file = whole 3; handle = b'/' ∷ []; client = 9; client_seq_id = 4 }

abbrev held : Held toy
held = record {
  worker = record {
    fs = 0;
    cache = record { timeout = 30000000000; entries = [] };
    creds = user;
    session_id = 7;
    listers = [];
    files = (file_id other, file) ∷ [];
    closed_files = [];
    in_use = pos 1;
    discarded = false;
    last_use = 5;
  };
  started = false;
}

closing :
    (h : Held toy) × (st : State (Files toy)) × (close_body other held state ≡ ok (nfs4_ok, h, st))
unfolding close_body if_removed is_removed_file contains removes_file remove_file remove_found
    found_file lookup erase done close_file forgets invalidate Keyed.erase ask asked closed_reply
    file_id reply answer operation_response write_all encode_all write make_room grow copy_at
    put_uint32 put_byte_array
closing = (_, _, refl)

close_again_example : close_body other closing.0 state ≡ closed_reply other closing.0 state
close_again_example = close_again other held closing.0 state closing.1 state closing.2
