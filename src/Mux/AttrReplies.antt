-- ===== src/Mux/AttrReplies.antt =====
-- mux_v4.go: the operations on attributes and CREATE add one reply, with the status they give.
use nfs4go.Common.{ℕ, List, [], ◌∷◌, Option, none, some, Result, ok, err, panic, stuck, ◌++◌}
use nfs4go.Common.Int.{ℤ}
use nfs4go.Attrs.Numbers.{a_time_modify}
use nfs4go.Auth.{Creds}
use nfs4go.Vfs.{Vfs}
use nfs4go.Xdr.Layout.{Val, end}
use nfs4go.Msg.Types.{f_attr4}
use nfs4go.Msg.Status.{serverfault, err2status}
use nfs4go.Msg.Ops.{op_setattr}
use nfs4go.Attrs.Bitmap.{Bitmap}
use nfs4go.Attrs.Record.{Attr}
use nfs4go.Mux.State.{FileHandle, Request, World, Handler, look_at_clock}
use nfs4go.Mux.Answers.{Answers, answer-Answers}
use nfs4go.Mux.Files.{Files, Body}
use nfs4go.Mux.Attributes.{with_attrs, compares, get_attr, compare, verify, n_verify}
use nfs4go.Mux.SetAttr.{
  decoded, decodes, decoded_first, decodes_first, sets_mode, gets_owners, parsed, names,
  sets_owners, sets_size, sets_time, set_attr_reply, makes, time_to_set, set_attr, create,
  with_clock,
}
use nfs4go.Mux.Bodies.{
  Handles, Replies, BodyAnswers, bind-BodyAnswers, reply-Replies, if-Replies, fail-Replies,
  ask-Replies,
}
use nfs4go.Mux.FileHandlers.{bodies, parts}

module _ (v : Vfs) where
  with_attrs-Replies :
      (request : Bitmap) (creds : Creds) (current : FileHandle) (info : v.Info)
      → (next : Val f_attr4 → Body v) → ((attrs : Val f_attr4) → Replies (next attrs))
      → Replies (with_attrs request creds current info next)
  unfolding with_attrs Replies
  with_attrs-Replies request creds current info next a h st f =
      bind-BodyAnswers _ st.out _ (λ attrs. a attrs h st f)

  compares-Replies :
      (op : ℕ) (asked : List ℕ) (if_same if_other : ℕ) (attrs : Val f_attr4)
      → Replies (compares {v = v} op asked if_same if_other attrs)
  unfolding compares
  compares-Replies op asked if_same if_other (mask, (vals, _)) = search bodies

  decoded-Replies :
      (op : ℕ) (r : Result (Attr × List ℕ)) (next : Attr → Body v)
      → ((attr : Attr) → Replies (next attr))
      → Replies (decoded op r next)
  unfolding decoded Replies BodyAnswers
  decoded-Replies op (ok (attr, clock)) next a h st f = a attr h (with_clock st clock) f
  decoded-Replies op (err e) next a h st f = reply-Replies v op (err2status e) end tt h st f
  decoded-Replies op panic next a h st f = tt
  decoded-Replies op stuck next a h st f = tt

  decodes-Replies :
      (op : ℕ) (attrs : Val f_attr4) (next : Attr → Body v)
      → ((attr : Attr) → Replies (next attr))
      → Replies (decodes op attrs next)
  unfolding decodes Replies
  decodes-Replies op attrs next a h st f = decoded-Replies op _ next a h st f

  decoded_first-Handles :
      (op : ℕ) (r : Result (Attr × List ℕ)) (next : Attr → Handler (Files v))
      → ((attr : Attr) → Handles (next attr))
      → Handles (decoded_first op r next)
  unfolding decoded_first Handles Answers
  decoded_first-Handles op (ok (attr, clock)) next a st f = a attr (with_clock st clock) f
  decoded_first-Handles op (err e) next a st f = answer-Answers op (err2status e) end tt st f
  decoded_first-Handles op panic next a st f = tt
  decoded_first-Handles op stuck next a st f = tt

  decodes_first-Handles :
      (op : ℕ) (attrs : Val f_attr4) (next : Attr → Handler (Files v))
      → ((attr : Attr) → Handles (next attr))
      → Handles (decodes_first op attrs next)
  unfolding decodes_first Handles
  decodes_first-Handles op attrs next a st f = decoded_first-Handles op _ next a st f

  sets_mode-Replies :
      (current : FileHandle) (mode : Option ℕ) (next : List ℕ → Body v)
      → ((changed : List ℕ) → Replies (next changed))
      → Replies (sets_mode current mode next)
  unfolding sets_mode
  sets_mode-Replies current none next a = a []
  sets_mode-Replies current (some mode) next a =
      ask-Replies _ _ _ (λ _. a _) (λ e. fail-Replies v op_setattr e)

  gets_owners-Replies :
      (current : FileHandle) (attr : Attr) (next : ℕ → ℕ → Body v)
      → ((uid gid : ℕ) → Replies (next uid gid))
      → Replies (gets_owners current attr next)
  unfolding gets_owners
  gets_owners-Replies current attr next a = if-Replies _ _ _ (a 0 0) (
      ask-Replies (λ fs. v.lstat fs current.path) _ _ (λ info. a (v.uid info) (v.gid info))
        (λ e. fail-Replies v op_setattr e))

  parsed-Replies :
      (n : Option ℕ) (next : ℕ → Body v) → ((n : ℕ) → Replies (next n)) → Replies (parsed n next)
  unfolding parsed
  parsed-Replies none next a = reply-Replies v op_setattr serverfault end tt
  parsed-Replies (some n) next a = a n

  names-Replies :
      (name : List ℕ) (old a : ℕ) (changed : List ℕ) (next : ℕ → List ℕ → Body v)
      → ((n : ℕ) (changed : List ℕ) → Replies (next n changed))
      → Replies (names name old a changed next)
  unfolding names
  names-Replies name old a changed next k =
      if-Replies _ _ _ (k old changed) (parsed-Replies _ _ (λ n. k n _))

  sets_owners-Replies :
      (current : FileHandle) (attr : Attr) (changed : List ℕ) (next : List ℕ → Body v)
      → ((changed : List ℕ) → Replies (next changed))
      → Replies (sets_owners current attr changed next)
  unfolding sets_owners
  sets_owners-Replies current attr changed next a =
      search (bodies, gets_owners-Replies, names-Replies) depth 14

  sets_size-Replies :
      (current : FileHandle) (size : Option ℕ) (changed : List ℕ) (next : List ℕ → Body v)
      → ((changed : List ℕ) → Replies (next changed))
      → Replies (sets_size current size changed next)
  unfolding sets_size
  sets_size-Replies current none changed next a = a changed
  sets_size-Replies current (some size) changed next a =
      ask-Replies _ _ _ (λ _. a _) (λ e. fail-Replies v op_setattr e)

  sets_time-Replies :
      (current : FileHandle) (attr : Attr) (changed : List ℕ) (next : List ℕ → Body v)
      → ((changed : List ℕ) → Replies (next changed))
      → Replies (sets_time current attr changed next)
  unfolding sets_time Replies
  sets_time-Replies current attr changed next a h st f =
      bind-BodyAnswers (look_at_clock st.world) st.out _ λ (seen : ℕ × World (Files v)).
        bind-BodyAnswers (look_at_clock seen.1) st.out _ λ (again : ℕ × World (Files v)).
          let time : ℤ = time_to_set seen.0 again.0 attr.time_metadata in
          ask-Replies (λ fs. v.chtimes fs current.path time time) _ _
            (λ _. a (changed ++ a_time_modify ∷ [])) (λ e. fail-Replies v op_setattr e) h
            (record st { world = again.1 }) f

  set_attr_reply-Replies : (changed : List ℕ) → Replies (set_attr_reply {v = v} changed)
  unfolding set_attr_reply
  set_attr_reply-Replies changed = search bodies

  makes-Replies :
      (obj_type : ℕ) (link : List ℕ) (mode : Option ℕ) (path : List ℕ) (next : Body v)
      → Replies next
      → Replies (makes obj_type link mode path next)
  unfolding makes
  makes-Replies obj_type link mode path next a = search bodies depth 16

ruleset attr_parts = (
  parts, with_attrs-Replies, compares-Replies, decodes-Replies, decodes_first-Handles,
  sets_mode-Replies, sets_owners-Replies, sets_size-Replies, sets_time-Replies,
  set_attr_reply-Replies, makes-Replies,
)

module _ (v : Vfs) (key : List ℕ) (req : Request) where
  pub get_attr-Handles : Handles (get_attr {v = v} key req)
  unfolding get_attr
  get_attr-Handles = search attr_parts depth 14

  compare-Handles :
      (op if_same if_other : ℕ) → Handles (compare {v = v} key req op if_same if_other)
  unfolding compare
  compare-Handles op if_same if_other = search attr_parts depth 14

  pub verify-Handles : Handles (verify {v = v} key req)
  unfolding verify
  verify-Handles = compare-Handles _ _ _

  pub n_verify-Handles : Handles (n_verify {v = v} key req)
  unfolding n_verify
  n_verify-Handles = compare-Handles _ _ _

  pub set_attr-Handles : Handles (set_attr {v = v} key req)
  unfolding set_attr
  set_attr-Handles = search attr_parts depth 14

  pub create-Handles : Handles (create {v = v} key req)
  unfolding create
  create-Handles = search attr_parts depth 14
