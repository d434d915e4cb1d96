-- ===== src/Mux/Bodies.antt =====
-- mux_v4.go: what the parts of an operation on files promise: a body that goes on adds one reply to
-- the buffer, with the status it gives, and so does a handler.
use nfs4go.Common.{
  ℕ, Bool, true, false, List, Option, none, some, if◌then◌else◌, Result, Error, ok, err, panic,
  stuck, ◌>>=◌,
}
use nfs4go.Vfs.{Vfs}
use nfs4go.Bufpool.{Buf}
use nfs4go.Worker.Cache.{Entry, SavedEntry}
use nfs4go.Worker.State.{Worker}
use nfs4go.Server.Workers.{get_worker}
use nfs4go.Xdr.Layout.{Layout, Val, Fields, Vals, end}
use nfs4go.Mux.State.{FileHandle, Request, State, Handler, look_at_clock}
use nfs4go.Mux.Output.{answer}
use nfs4go.Mux.Appends.{IsFresh}
use nfs4go.Mux.Answers.{Answered, Answers, answer-Answers, bind-Answers, read_args-Answers}
use nfs4go.Mux.Files.{
  Files, Held, Body, reads, need, need_current, with_disk, reply, discards, fail, asked, ask,
  cached_now, cached_at, cached, remembers, forgets, moves, derefs, at_current, stat_cached, shut,
  with_worker, with_fs,
}

module _ {F : Type 0} where
  unfoldable pub Handles : Handler F → Type 0
  Handles handler = (st : State F) → IsFresh st.out → Answers st.out (handler st)

pub answer-Handles :
    (F : Type 0) (op status : ℕ) (fs : Fields) (vs : Vals fs)
    → Handles {F = F} (answer op status fs vs)
unfolding Handles
answer-Handles F op status fs vs st h = answer-Answers op status fs vs st h

module _ {F : Type 0} where
  pub if-Handles :
      (t : Bool) (x y : Handler F) → Handles x → Handles y → Handles (if t then x else y)
  if-Handles true x y a b = a
  if-Handles false x y a b = b

  pub reads-Handles :
      (l : Layout) (next : Val l → Handler F)
      → ((args : Val l) → Handles (next args))
      → Handles (reads l next)
  unfolding Handles reads
  reads-Handles l next a st h =
      read_args-Answers l st _ (λ args rest. a args (record st { input = rest }) h)

  pub need-Handles :
      (op status : ℕ) (fh : Option FileHandle) (next : FileHandle → Handler F)
      → ((fh : FileHandle) → Handles (next fh))
      → Handles (need op status fh next)
  unfolding Handles need
  need-Handles op status none next a st h = answer-Answers op status end tt st h
  need-Handles op status (some fh) next a st h = a fh st h

  pub need_current-Handles :
      (op : ℕ) (next : FileHandle → Handler F)
      → ((fh : FileHandle) → Handles (next fh))
      → Handles (need_current op next)
  unfolding Handles need_current
  need_current-Handles op next a st h = need-Handles op _ st.current_handle next a st h

module _ {v : Vfs} where
  unfoldable pub BodyAnswers : Buf → Result (ℕ × Held v × State (Files v)) → Type 0
  BodyAnswers out (ok (status, h, st)) = Answered status out st.out
  BodyAnswers out (err e) = Unit
  BodyAnswers out panic = Unit
  BodyAnswers out stuck = Unit

  unfoldable pub Replies : Body v → Type 0
  Replies body =
      (h : Held v) (st : State (Files v)) → IsFresh st.out → BodyAnswers st.out (body h st)

  held :
      (out : Buf) (h : Held v) (r : Result (ℕ × State (Files v)))
      → Answers out r
      → BodyAnswers out (do (status, st) ← r; ok (status, h, st))
  unfolding Answers BodyAnswers
  held out h (ok (status, st)) a = a
  held out h (err e) a = tt
  held out h panic a = tt
  held out h stuck a = tt

pub panics-Replies : (v : Vfs) → Replies {v = v} (λ h st. panic)
unfolding Replies BodyAnswers
panics-Replies v h st f = tt

pub hangs-Replies : (v : Vfs) → Replies {v = v} (λ h st. stuck)
unfolding Replies BodyAnswers
hangs-Replies v h st f = tt

pub reply-Replies :
    (v : Vfs) (op status : ℕ) (fs : Fields) (vs : Vals fs) → Replies {v = v} (reply op status fs vs)
unfolding Replies reply
reply-Replies v op status fs vs h st f =
    held st.out h (answer op status fs vs st) (answer-Answers op status fs vs st f)

module _ {v : Vfs} where
  pub if-Replies : (t : Bool) (x y : Body v) → Replies x → Replies y → Replies (if t then x else y)
  if-Replies true x y a b = a
  if-Replies false x y a b = b

  pub discards-Replies : (next : Body v) → Replies next → Replies (discards next)
  unfolding Replies discards
  discards-Replies next a h st f = a _ st f

pub fail-Replies : (v : Vfs) (op : ℕ) (e : Error) → Replies {v = v} (fail op e)
unfolding fail
fail-Replies v op e = search (if-Replies, reply-Replies, discards-Replies)

module _ {v : Vfs} where
  pub asked-Replies :
      {A : Type 0} (r : Result A × v.Disk) (good : A → Body v) (bad : Error → Body v)
      → ((a : A) → Replies (good a))
      → ((e : Error) → Replies (bad e))
      → Replies (asked r good bad)
  unfolding Replies asked BodyAnswers
  asked-Replies (ok a, disk) good bad g b h st f = g a h (with_disk st disk) f
  asked-Replies (err e, disk) good bad g b h st f = b e h (with_disk st disk) f
  asked-Replies (panic, disk) good bad g b h st f = tt
  asked-Replies (stuck, disk) good bad g b h st f = tt

  pub ask-Replies :
      {A : Type 0} (call : v.Fs → v.Disk → Result A × v.Disk) (good : A → Body v)
      → (bad : Error → Body v) → ((a : A) → Replies (good a))
      → ((e : Error) → Replies (bad e))
      → Replies (ask call good bad)
  unfolding Replies ask
  ask-Replies call good bad g b h st f = asked-Replies _ good bad g b h st f

  pub bind-BodyAnswers :
      {A : Type 0} (r : Result A) (out : Buf)
      → (k : A → Result (ℕ × Held v × State (Files v))) → ((a : A) → BodyAnswers out (k a))
      → BodyAnswers out (r >>= k)
  unfolding BodyAnswers
  bind-BodyAnswers (ok a) out k h = h a
  bind-BodyAnswers (err e) out k h = tt
  bind-BodyAnswers panic out k h = tt
  bind-BodyAnswers stuck out k h = tt

  -- A look at the clock, and the body that goes on with it.
  pub clock-Replies :
      (next : ℕ → Body v) (more : ℕ → Held v → Held v)
      → ((now : ℕ) → Replies (next now))
      → Replies (λ h st. do
        (now, world) ← look_at_clock st.world
        next now (more now h) (record st { world = world }))
  unfolding Replies
  clock-Replies next more a h st f =
      bind-BodyAnswers (look_at_clock st.world) st.out _
        (λ seen. a seen.0 (more seen.0 h) (record st { world = seen.1 }) f)

  cached_now-Replies :
      (entry : Option (Entry v.Info)) (found : Entry v.Info → Body v) (missing : Body v)
      → ((e : Entry v.Info) → Replies (found e))
      → Replies missing
      → Replies (cached_now entry found missing)
  unfolding cached_now
  cached_now-Replies none found missing a b = b
  cached_now-Replies (some entry) found missing a b = a entry

  cached_at-Replies :
      (handle : List ℕ) (saved : Option (SavedEntry v.Info)) (found : Entry v.Info → Body v)
      → (missing : Body v) → ((e : Entry v.Info) → Replies (found e))
      → Replies missing
      → Replies (cached_at handle saved found missing)
  unfolding Replies cached_at
  cached_at-Replies handle none found missing a b h st f = b h st f
  cached_at-Replies handle (some saved) found missing a b h st f =
      bind-BodyAnswers (look_at_clock st.world) st.out _
        (λ seen. cached_now-Replies _ found missing a b h (record st { world = seen.1 }) f)

  pub cached-Replies :
      (handle : List ℕ) (found : Entry v.Info → Body v) (missing : Body v)
      → ((e : Entry v.Info) → Replies (found e))
      → Replies missing
      → Replies (cached handle found missing)
  unfolding Replies cached
  cached-Replies handle found missing a b h st f =
      cached_at-Replies handle _ found missing a b h st f

  pub remembers-Replies :
      (handle : List ℕ) (entry : Entry v.Info) (next : Body v)
      → Replies next
      → Replies (remembers handle entry next)
  unfolding Replies remembers
  remembers-Replies handle entry next a h st f =
      bind-BodyAnswers (look_at_clock st.world) st.out _
        (λ seen. a _ (record st { world = seen.1 }) f)

  pub forgets-Replies :
      (handle : List ℕ) (next : Body v) → Replies next → Replies (forgets handle next)
  unfolding Replies forgets
  forgets-Replies handle next a h st f = a _ st f

  pub moves-Replies : (fh : FileHandle) (next : Body v) → Replies next → Replies (moves fh next)
  unfolding Replies moves
  moves-Replies fh next a h st f = a h (record st { current_handle = some fh }) f

  derefs-Replies :
      (fh : Option FileHandle) (next : FileHandle → Body v)
      → ((fh : FileHandle) → Replies (next fh))
      → Replies (derefs fh next)
  unfolding Replies derefs BodyAnswers
  derefs-Replies none next a h st f = tt
  derefs-Replies (some fh) next a h st f = a fh h st f

  pub at_current-Replies :
      (next : FileHandle → Body v)
      → ((fh : FileHandle) → Replies (next fh))
      → Replies (at_current next)
  unfolding Replies at_current
  at_current-Replies next a h st f = derefs-Replies st.current_handle next a h st f

  pub stat_cached-Replies :
      (op : ℕ) (fh : FileHandle) (next : v.Info → Body v)
      → ((info : v.Info) → Replies (next info))
      → Replies (stat_cached op fh next)
  unfolding stat_cached
  stat_cached-Replies op fh next a =
      cached-Replies fh.handle _ _ (λ entry. a entry.info)
        (ask-Replies _ _ _ (λ info. remembers-Replies _ _ _ (a info)) (λ e. fail-Replies v op e))

  closed :
      (p : ℕ) (out : Buf) (r : Result (ℕ × Held v × State (Files v)))
      → BodyAnswers out r
      → Answers out (do (status, h, st) ← r; ok (status, shut p h st))
  unfolding BodyAnswers Answers shut
  closed p out (ok (status, h, st)) a = a
  closed p out (err e) a = tt
  closed p out panic a = tt
  closed p out stuck a = tt

  with_worker-Handles :
      (p : ℕ) (w : Option (Worker v)) (body : Body v)
      → Replies body
      → Handles (with_worker p w body)
  unfolding Handles Replies with_worker Answers
  with_worker-Handles p none body a st f = tt
  with_worker-Handles p (some w) body a st f =
      closed p st.out _ (a (record { worker = w; started = false }) st f)

  pub with_fs-Handles :
      (client_key : List ℕ) (req : Request) (body : Body v)
      → Replies body
      → Handles (with_fs client_key req body)
  unfolding Handles with_fs
  with_fs-Handles client_key req body a st f =
      bind-Answers (look_at_clock st.world) st.out _ λ seen _.
        bind-Answers (get_worker client_key req.creds st.session_id seen.0 _ _ _) st.out _
          λ got _. with_worker-Handles got.0 _ body a _ f
