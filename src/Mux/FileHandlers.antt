-- ===== src/Mux/FileHandlers.antt =====
-- mux_v4.go: the parts of the operations on files, for `search`: each adds one reply.
use nfs4go.Common.{
  ℕ, List, Option, none, some, Error, Result, ok, err, panic, stuck, length, ltb, Bool-cases, inl,
  inr, eof,
}
use nfs4go.Bufpool.{Buf, Pool}
use nfs4go.Vfs.{Vfs}
use nfs4go.Worker.State.{File}
use nfs4go.Xdr.Layout.{end}
use nfs4go.Msg.Status.{err2status}
use nfs4go.Mux.State.{FileHandle, State}
use nfs4go.Mux.Files.{Files, Body, Held}
use nfs4go.Mux.Paths.{fail_stale}
use nfs4go.Mux.Changes.{need_saved, fail_across, remove_path}
use nfs4go.Mux.OpenFiles.{
  found_file, gets_file, gets_file_of, removes_file, if_removed, reads_into, read_reply, read_from,
  closed_reply, close_file, close_body, written, write_to,
}
use nfs4go.Mux.Access.{access_reply}
use nfs4go.Mux.ExtendedAttrs.{extends, xattr_reply, touches, changes_xattr}
use nfs4go.Mux.Bodies.{
  Handles, Replies, BodyAnswers, answer-Handles, if-Handles, reads-Handles, need-Handles,
  need_current-Handles, with_fs-Handles, panics-Replies, hangs-Replies, reply-Replies, if-Replies,
  fail-Replies, discards-Replies, ask-Replies, clock-Replies, cached-Replies, remembers-Replies,
  forgets-Replies, moves-Replies, at_current-Replies, stat_cached-Replies,
}

pub ruleset bodies = (
  panics-Replies, hangs-Replies, reply-Replies, if-Replies, fail-Replies, discards-Replies,
  ask-Replies, cached-Replies, remembers-Replies, forgets-Replies, moves-Replies,
  at_current-Replies, stat_cached-Replies, answer-Handles, if-Handles, reads-Handles,
  need_current-Handles, with_fs-Handles,
)

pub fail_stale-Replies : (v : Vfs) (e : Error) → Replies (fail_stale {v = v} e)
unfolding fail_stale
fail_stale-Replies v e = search (bodies) depth 12

module _ (v : Vfs) where
  pub need_saved-Handles :
      (op : ℕ) (next : FileHandle → State (Files v) → Result (ℕ × State (Files v)))
      → ((fh : FileHandle) → Handles (next fh))
      → Handles (need_saved {v = v} op next)
  unfolding need_saved Handles
  need_saved-Handles op next a st h = need-Handles op _ st.saved_handle next a st h

  pub fail_across-Replies : (e : Error) → Replies (fail_across {v = v} e)
  unfolding fail_across
  fail_across-Replies e = search (bodies) depth 12

  pub remove_path-Replies :
      (path : List ℕ) (good : Body v) (bad : Error → Body v)
      → Replies good
      → ((e : Error) → Replies (bad e))
      → Replies (remove_path path good bad)
  unfolding remove_path
  remove_path-Replies path good bad a b = search (bodies) depth 12

  found_file-Replies :
      (f : Option (File v)) (found : File v → Body v) (missing : Body v)
      → ((f : File v) → Replies (found f))
      → Replies missing
      → Replies (found_file f found missing)
  unfolding found_file
  found_file-Replies none found missing a b = b
  found_file-Replies (some f) found missing a b = a f

  pub gets_file-Replies :
      (id : ℕ) (found : File v → Body v) (missing : Body v)
      → ((f : File v) → Replies (found f))
      → Replies missing
      → Replies (gets_file id found missing)
  unfolding gets_file Replies
  gets_file-Replies id found missing a b h st f = found_file-Replies _ found missing a b h st f

  pub gets_file_of-Replies :
      (id : ℕ) (current : FileHandle) (found : File v → Body v) (missing : Body v)
      → ((f : File v) → Replies (found f))
      → Replies missing
      → Replies (gets_file_of id current found missing)
  unfolding gets_file_of
  gets_file_of-Replies id current found missing a b = search (bodies, gets_file-Replies) depth 12

  pub removes_file-Replies :
      (id : ℕ) (found : File v → Body v) (missing : Body v)
      → ((f : File v) → Replies (found f))
      → Replies missing
      → Replies (removes_file id found missing)
  unfolding removes_file Replies
  removes_file-Replies id found missing a b h st f = found_file-Replies _ found missing a b _ _ f

  pub if_removed-Replies :
      (id : ℕ) (removed other : Body v)
      → Replies removed
      → Replies other
      → Replies (if_removed id removed other)
  unfolding if_removed Replies
  if_removed-Replies id removed other a b h st f = if-Replies _ removed other a b h st f

  pub closed_reply-Replies : (other : ℕ × ℕ × ℕ) → Replies (closed_reply {v = v} other)
  unfolding closed_reply
  closed_reply-Replies other = search (bodies) depth 12

  pub close_file-Replies : (other : ℕ × ℕ × ℕ) (f : File v) → Replies (close_file other f)
  unfolding close_file
  close_file-Replies other f = search (bodies, closed_reply-Replies) depth 12

  read_reply-Replies :
      (bytes : List ℕ) (r : Result (Unit {0})) → Replies (read_reply {v = v} bytes r)
  unfolding read_reply
  read_reply-Replies bytes (ok _) = search (bodies) depth 12
  read_reply-Replies bytes (err eof) = search (bodies) depth 12
  read_reply-Replies bytes (err e) = search (bodies) depth 12
  read_reply-Replies bytes panic = search (bodies) depth 12
  read_reply-Replies bytes stuck = search (bodies) depth 12

  pub written-Replies : (n : ℕ) → Replies (written {v = v} n)
  unfolding written Replies
  written-Replies n h st f = reply-Replies v _ _ _ _ h st f

  pub write_to-Replies :
      (f : File v) (offset stable : ℕ) (bytes : List ℕ) → Replies (write_to f offset stable bytes)
  unfolding write_to
  write_to-Replies f offset stable bytes = search (bodies, written-Replies) depth 12

  pub extends-Replies :
      (op : ℕ) (attrs : Result (List (List ℕ × List ℕ)))
      → (next : List (List ℕ × List ℕ) → Body v)
      → ((attrs : List (List ℕ × List ℕ)) → Replies (next attrs))
      → Replies (extends op attrs next)
  unfolding extends
  extends-Replies op (ok attrs) next a = a attrs
  extends-Replies op (err e) next a = search (bodies) depth 12
  extends-Replies op panic next a = search (bodies) depth 12
  extends-Replies op stuck next a = search (bodies) depth 12

  pub xattr_reply-Replies : (value : Option (List ℕ)) → Replies (xattr_reply {v = v} value)
  unfolding xattr_reply
  xattr_reply-Replies none = search (bodies) depth 12
  xattr_reply-Replies (some value) = search (bodies) depth 12

  pub close_body-Replies : (other : ℕ × ℕ × ℕ) → Replies (close_body {v = v} other)
  unfolding close_body
  close_body-Replies other =
      search
        (bodies, if_removed-Replies, removes_file-Replies, closed_reply-Replies, close_file-Replies)
        depth 12

  pub access_reply-Replies : (asked mode : ℕ) → Replies (access_reply {v = v} asked mode)
  unfolding access_reply
  access_reply-Replies asked mode = search bodies

  -- The return of the buffer changes the pool only.
  with_buffer :
      (out : Buf) (r : Result (ℕ × Held v × State (Files v))) (back : Pool → Pool)
      → BodyAnswers out r
      → BodyAnswers out (elim r [
        | ok (status, h', st') ↦
            ok (status, h', record st' { world = record st'.world { pool = back st'.world.pool } })
        | err e ↦ err e
        | panic ↦ panic
        | stuck ↦ stuck
      ])
  unfolding BodyAnswers
  with_buffer out (ok (status, h', st')) back a = a
  with_buffer out (err e) back a = tt
  with_buffer out panic back a = tt
  with_buffer out stuck back a = tt

  reads_into-Replies :
      (count : ℕ) (bytes : List ℕ) (next : Body v)
      → Replies next
      → Replies (reads_into count bytes next)
  unfolding reads_into Replies
  reads_into-Replies count bytes next a h st f = elim (Bool-cases (ltb count (length bytes))) [
    | inl long ↦ rw long (panics-Replies v h st f)
    | inr fits ↦ rw fits (with_buffer st.out _ _ (a h _ f))
  ]

  pub read_from-Replies : (f : File v) (offset count : ℕ) → Replies (read_from f offset count)
  unfolding read_from Replies
  read_from-Replies f offset count h st fresh =
      reads_into-Replies count _ _ (read_reply-Replies _ _) h _ fresh

  touches-Replies :
      (current : FileHandle) (prev : ℕ) (next : Body v)
      → Replies next
      → Replies (touches current prev next)
  unfolding touches
  touches-Replies current prev next a =
      clock-Replies _ (λ now h. h) (λ now. ask-Replies _ _ _ (λ _. a) (λ _. a))

  pub changes_xattr-Replies :
      (op : ℕ) (change : FileHandle → v.Fs → v.Disk → Result (Unit {0}) × v.Disk) (next : Body v)
      → Replies next
      → Replies (changes_xattr op change next)
  unfolding changes_xattr
  changes_xattr-Replies op change next a = at_current-Replies {v = v} _ λ current.
      ask-Replies {v = v} (λ fs. v.lstat fs current.path) _ _
        (λ info.
          ask-Replies {v = v} (change current) _ _
            (λ _.
              touches-Replies current (v.mod_time info) _ (forgets-Replies current.handle next a))
            (λ e. reply-Replies v op (err2status e) end tt))
        (λ e. fail-Replies v op e)

pub ruleset parts = (
  bodies, fail_stale-Replies, need_saved-Handles, fail_across-Replies, remove_path-Replies,
  gets_file-Replies, gets_file_of-Replies, removes_file-Replies, if_removed-Replies,
  close_body-Replies, read_from-Replies, written-Replies, write_to-Replies, extends-Replies,
  xattr_reply-Replies, access_reply-Replies, changes_xattr-Replies,
)
