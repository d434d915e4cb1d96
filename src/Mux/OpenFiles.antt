-- ===== src/Mux/OpenFiles.antt =====
-- mux_v4.go: the operations on open files, except OPEN itself.
use nfs4go.Common.{
  ℕ, ◌%◌, ◌^◌, true, false, ◌==◌, ltb, List, [], length, list_eq, Option, none, some, if◌then◌else◌,
  Result, ok, err, panic, stuck, eof, permission,
}
use nfs4go.Common.Int.{ℤ, int64}
use nfs4go.Attrs.FileId.{file_id}
use nfs4go.Bufpool.{Buf, Pool, allocate, fill}
use nfs4go.Bufpool
use nfs4go.Vfs.{Vfs}
use nfs4go.Worker.State.{File, Opened, whole, nop_writer_at, nop_reader_at, file_of}
use nfs4go.Worker.Files.{get_file, remove_file, is_removed_file}
use nfs4go.Xdr.Layout.{◌▸◌, end}
use nfs4go.Msg.Args.{opendg4args, close4args, read4args, write4args, commit4args}
use nfs4go.Msg.Types.{state_id4}
use nfs4go.Msg.Replies.{read4resok, write4resok}
use nfs4go.Msg.Ops.{op_open_downgrade, op_close, op_read, op_write, op_commit}
use nfs4go.Msg.Status.{nfs4_ok, bad_seqid, err2status}
use nfs4go.Mux.State.{FileHandle, Request, Handler}
use nfs4go.Mux.Output.{plain}
use nfs4go.Mux.Files.{
  Files, Body, reads, need_current, with_fs, ask, reply, plain_reply, forgets, at_current,
  with_disk, with_clients,
}

-- `FILE_SYNC4`.
abbrev pub file_sync4 : ℕ
file_sync4 = 2

module _ {v : Vfs} where
  unfoldable pub found_file : Option (File v) → (File v → Body v) → Body v → Body v
  found_file none found missing = missing
  found_file (some f) found missing = found f

  -- `fs.GetFile`.
  unfoldable pub gets_file : ℕ → (File v → Body v) → Body v → Body v
  unfolding found_file
  gets_file id found missing h st = found_file (get_file id h.worker) found missing h st

  -- `fs.GetFile`, where the file must be open under the current handle.
  unfoldable pub gets_file_of : ℕ → FileHandle → (File v → Body v) → Body v → Body v
  unfolding gets_file
  gets_file_of id current found missing =
      gets_file id (λ f. if list_eq f.handle current.handle then found f else missing) missing

  -- `fs.RemoveFile`.
  unfoldable pub removes_file : ℕ → (File v → Body v) → Body v → Body v
  unfolding found_file
  removes_file id found missing h st =
      let (f, w, cs) = remove_file id h.worker st.world.clients in
      found_file f found missing (record h { worker = w }) (with_clients st cs)

  unfoldable pub if_removed : ℕ → Body v → Body v → Body v
  if_removed id removed other h st = (if is_removed_file id h.worker then removed else other) h st

  -- A buffer of the pool with `count` bytes allocated, which `ReadAt` filled in part, and its return to
  -- the pool. More bytes than the buffer has would be out of bounds.
  unfoldable pub reads_into : ℕ → List ℕ → Body v → Body v
  reads_into count bytes next h st =
      if ltb count (length bytes)
      then panic
      else (let (buf, pool) = Bufpool.get st.world.pool in
          elim (next h (record st { world = record st.world { pool = pool } })) [
            | ok (status, h', st') ↦ ok (
              status,
              h',
              record st' {
                world = record st'.world {
                  pool = Bufpool.put (fill bytes (allocate count buf)) st'.world.pool;
                };
              },
            )
            | err e ↦ err e
            | panic ↦ panic
            | stuck ↦ stuck
          ])

  unfoldable pub read_reply : List ℕ → Result (Unit {0}) → Body v
  unfolding reply
  read_reply bytes (ok _) = reply op_read nfs4_ok (read4resok ▸ end) ((false, (bytes, tt)), tt)
  read_reply bytes (err eof) = reply op_read nfs4_ok (read4resok ▸ end) ((true, (bytes, tt)), tt)
  read_reply bytes (err e) = plain_reply op_read (err2status e)
  read_reply bytes panic = λ h st. panic
  read_reply bytes stuck = λ h st. stuck

  -- `ReadAt` of the file or of its wrapper.
  unfoldable pub read_at : Opened v → ℕ → ℤ → v.Disk → (List ℕ × Result (Unit {0})) × v.Disk
  read_at (whole f) count offset disk = v.read_at f count offset disk
  read_at (nop_writer_at f) count offset disk = v.read_at f count offset disk
  read_at (nop_reader_at f) count offset disk = (([], err permission), disk)

  -- `WriteAt` of the file or of its wrapper.
  unfoldable pub write_at : Opened v → List ℕ → ℤ → v.Disk → Result ℕ × v.Disk
  write_at (whole f) bytes offset disk = v.write_at f bytes offset disk
  write_at (nop_writer_at f) bytes offset disk = (err permission, disk)
  write_at (nop_reader_at f) bytes offset disk = v.write_at f bytes offset disk

  -- `f.File.ReadAt`.
  unfoldable pub read_from : File v → ℕ → ℕ → Body v
  unfolding reads_into read_reply read_at
  read_from f offset count h st =
      let ((bytes, r), disk) = read_at f.file count (int64 offset) st.world.files.disk in
      reads_into count bytes (read_reply bytes r) h (with_disk st disk)

  unfoldable pub closed_reply : ℕ × ℕ × ℕ → Body v
  unfolding reply
  closed_reply other = reply op_close nfs4_ok (state_id4 ▸ end) ((2, (other, tt)), tt)

  -- An error of `Close` is told, and the worker is not discarded.
  unfoldable pub close_file : ℕ × ℕ × ℕ → File v → Body v
  unfolding forgets ask closed_reply
  close_file other f = forgets f.handle (
      ask (λ _. v.close_file (file_of f.file)) (λ _. closed_reply other)
        (λ e. plain_reply op_close (err2status e)))

  -- A file that was closed before is answered for once more.
  unfoldable pub close_body : ℕ × ℕ × ℕ → Body v
  unfolding if_removed removes_file close_file closed_reply file_id
  close_body other =
      if_removed (file_id other) (closed_reply other)
        (removes_file (file_id other) (close_file other) (plain_reply op_close bad_seqid))

  -- `WriteVerf` is the session id of the worker.
  unfoldable pub written : ℕ → Body v
  unfolding reply
  written n h st =
      reply op_write nfs4_ok (write4resok ▸ end)
        ((n % 2 ^ 32, (file_sync4, (h.worker.session_id, tt))), tt) h st

  unfoldable pub write_to : File v → ℕ → ℕ → List ℕ → Body v
  unfolding ask forgets written write_at
  write_to f offset stable bytes =
      ask (λ _. write_at f.file bytes (int64 offset))
        (λ n. if stable == file_sync4 then forgets f.handle (written n) else written n)
        (λ e. plain_reply op_write (err2status e))

module _ {v : Vfs} (client_key : List ℕ) (req : Request) where
  unfoldable pub open_downgrade : Handler (Files v)
  unfolding reads with_fs gets_file file_id
  open_downgrade = reads opendg4args λ ((seq_id, (other, _)), _).
      if ltb 1 seq_id
      then plain op_open_downgrade bad_seqid
      else with_fs client_key req (
          gets_file (file_id other) (λ f. plain_reply op_open_downgrade nfs4_ok)
            (plain_reply op_open_downgrade bad_seqid))

  unfoldable pub close : Handler (Files v)
  unfolding reads need_current with_fs close_body
  close = reads close4args λ (seq_id, ((state_seq_id, (other, _)), _)).
      if ltb 1 state_seq_id
      then plain op_close bad_seqid
      else need_current op_close λ current. with_fs client_key req (close_body other)

  unfoldable pub read : Handler (Files v)
  unfolding reads need_current with_fs gets_file_of read_from file_id
  read = reads read4args λ ((seq_id, (other, _)), (offset, (count, _))).
      need_current op_read λ current.
        if ltb 1 seq_id
        then plain op_read bad_seqid
        else with_fs client_key req (
            gets_file_of (file_id other) current (λ f. read_from f offset count)
              (plain_reply op_read bad_seqid))

  unfoldable pub write : Handler (Files v)
  unfolding reads need_current with_fs gets_file_of write_to file_id
  write = reads write4args λ ((seq_id, (other, _)), (offset, (stable, (bytes, _)))).
      if ltb 1 seq_id
      then plain op_write bad_seqid
      else need_current op_write λ current. with_fs client_key req (
          gets_file_of (file_id other) current (λ f. write_to f offset stable bytes)
            (plain_reply op_write bad_seqid))

  -- The current handle is not tested, and the reply has no verifier.
  unfoldable pub commit : Handler (Files v)
  unfolding reads with_fs at_current forgets
  commit = reads commit4args λ _.
      with_fs client_key req
        (at_current λ current. forgets current.handle (plain_reply op_commit nfs4_ok))
