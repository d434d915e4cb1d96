-- ===== src/Server/Serving.antt =====
-- server.go: what `GetWorker` promises to the operation that asks for a worker.
use nfs4go.Common.{
  ℕ, zero, suc, ◌+◌, ◌<◌, ◌≡◌, refl, sym, ap, ◌∙◌, ◌⊎◌, inl, inr, Bool, true, false, List, [], ◌∷◌,
  ◌++◌, Option, none, some, arith, length, get_elem?, set, list_eq, list_eq_refl, ==_refl,
  if◌then◌else◌, Result, ok, Bool-cases, Option-cases, ◌==◌, list_eq-eq, some_inj, subst,
}
use nfs4go.Common.Assoc
use nfs4go.Common.Keyed
use nfs4go.Common.Int.{pos, ◌+ℤ◌}
use nfs4go.Auth.{Creds, creds_equal}
use nfs4go.Auth.Equality.{creds_equal_refl_sym}
use nfs4go.Clients.Client.{draw}
use nfs4go.Vfs.{Vfs}
use nfs4go.Worker.State.{Worker}
use nfs4go.Worker.Lifecycle.{new, use_worker, discard}
use nfs4go.Server.Workers.{
  Server, session_key, users_or_none, users_of, find_worker, put_worker, new_worker, reuse_worker,
  found_worker, get_worker,
}

module _ {ℓ} {A : Type ℓ} where
  length-append_one : (xs : List A) (x : A) → length (xs ++ x ∷ []) ≡ length xs + 1
  length-append_one [] x = omega arith
  length-append_one (y ∷ xs) x = omega (arith, length-append_one xs x)

  get_elem?-append : (xs : List A) (x : A) → get_elem? (xs ++ x ∷ []) (length xs) ≡ some x
  get_elem?-append [] x = refl
  get_elem?-append (y ∷ xs) x = get_elem?-append xs x

  get_elem?-set :
      (xs : List A) (i : ℕ) (x y : A) → get_elem? xs i ≡ some y → get_elem? (set xs i x) i ≡ some x
  get_elem?-set [] i x y e = cc
  get_elem?-set (z ∷ xs) zero x y e = refl
  get_elem?-set (z ∷ xs) (suc i) x y e = get_elem?-set xs i x y e

  length-set : (xs : List A) (i : ℕ) (x : A) → length (set xs i x) ≡ length xs
  length-set [] i x = refl
  length-set (z ∷ xs) zero x = refl
  length-set (z ∷ xs) (suc i) x = ap suc (length-set xs i x)

  get_elem?-lt : (xs : List A) (i : ℕ) → i < length xs → (x : A) × (get_elem? xs i ≡ some x)
  get_elem?-lt [] i h = absurd (omega arith)
  get_elem?-lt (x ∷ xs) zero h = (x, refl)
  get_elem?-lt (x ∷ xs) (suc i) h = get_elem?-lt xs i (omega arith)

users_of-insert :
    (key asked : List ℕ) (users : List (ℕ × ℕ)) (workers : List (List ℕ × List (ℕ × ℕ)))
    → users_of asked (Keyed.insert key users workers)
      ≡ (if list_eq key asked then users else users_of asked workers)
users_of-insert key asked users workers =
    ap users_or_none (Keyed.lookup-insert key asked users workers)
    ∙ elim (Bool-cases (list_eq key asked)) [ inl hit ↦ rw hit | inr miss ↦ rw miss ]

one_more :
    (same_key same_user : Bool) (n p : ℕ) (before : Option ℕ)
    → (before ≡ some p → p < n)
    → (if same_key then (if same_user then some n else before) else before) ≡ some p
    → p < n + 1
one_more true true n p before h e = omega (arith, some_inj e)
one_more true false n p before h e = omega (arith, h e)
one_more false same_user n p before h e = omega (arith, h e)

module _ {v : Vfs} where
  -- Every stored pointer leads to a worker.
  abbrev pub IsStored : Server v → Type 0
  IsStored s = (key : List ℕ) (uid p : ℕ) → find_worker key uid s ≡ some p → p < length s.heap

  -- The worker `p` is stored for the user, has credentials that count as equal, can be used, and
  -- counts the one who asked: it is new, or its count is one more than it was.
  pub record Serves (key : List ℕ) (creds : Creds) (s s' : Server v) (p : ℕ) : Type 0 where
    pub worker : Worker v
    pub at : get_elem? s'.heap p ≡ some worker
    pub stored : find_worker key creds.uid s' ≡ some p
    pub alive : worker.discarded ≡ false
    pub same_user : creds_equal worker.creds creds ≡ true
    pub counted :
        ((p ≡ length s.heap) × (worker.in_use ≡ pos 1))
        ⊎ ((before : Worker v) × (get_elem? s.heap p ≡ some before)
            × (worker.in_use ≡ before.in_use +ℤ pos 1))
    pub valid : IsStored s'

  find_worker-new :
      (key asked : List ℕ) (uid other p : ℕ) (s s' : Server v)
      → s'.workers ≡ Keyed.insert key (Assoc.insert uid p (users_of key s.workers)) s.workers
      → find_worker asked other s' ≡ (
          if list_eq key asked
          then (if uid == other then some p else find_worker asked other s)
          else find_worker asked other s)
  unfolding find_worker
  find_worker-new key asked uid other p s s' e =
      ap (λ (ws : List (List ℕ × List (ℕ × ℕ))). Assoc.lookup other (users_of asked ws)) e
      ∙ ap (Assoc.lookup other) (users_of-insert key asked _ s.workers)
      ∙ elim (Bool-cases (list_eq key asked)) [
        | inl hit ↦
            rw (hit, list_eq-eq key asked hit)
              (Assoc.lookup-insert uid other p (users_of asked s.workers))
        | inr miss ↦ rw miss
      ]

  -- What `GetWorker` comes to.
  abbrev pub Served : List ℕ → Creds → Server v → Result (ℕ × List ℕ × v.Disk × Server v) → Type 0
  Served key creds s r =
      (p : ℕ) × (rest : List ℕ) × (disk : v.Disk) × (s' : Server v) × (r ≡ ok (p, rest, disk, s'))
      × Serves key creds s s' p

  -- A new worker.
  new_worker_lem :
      (key : List ℕ) (creds : Creds) (now d : ℕ) (draws : List ℕ) (disk : v.Disk) (s s0 : Server v)
      → IsStored s
      → length s.heap ≡ length s0.heap
      → Served key creds s0 (new_worker key creds now (d ∷ draws) disk s)
  unfolding new_worker new draw
  new_worker_lem key creds now d draws disk s s0 h same = (
    _,
    _,
    _,
    _,
    refl,
    record {
      worker = _;
      at = get_elem?-append s.heap _;
      stored =
          find_worker-new key key creds.uid creds.uid (length s.heap) s _ refl
          ∙ rw (list_eq_refl key, ==_refl creds.uid);
      alive = refl;
      same_user = (creds_equal_refl_sym creds creds).0;
      counted = inl (same, refl);
      valid = λ asked uid p e.
          subst (λ (n : ℕ). p < n) (sym (length-append_one s.heap _))
            (one_more (list_eq key asked) (creds.uid == uid) (length s.heap) p
              (find_worker asked uid s) (h asked uid p)
              (sym (find_worker-new key asked creds.uid uid (length s.heap) s _ refl) ∙ e));
    },
  )

  put_worker-IsStored :
      (p : ℕ) (w : Worker v) (start : Bool) (s : Server v)
      → IsStored s
      → IsStored (put_worker p (w, start) s)
  unfolding put_worker find_worker
  put_worker-IsStored p w start s h key uid q e =
      subst (λ (n : ℕ). q < n) (sym (length-set s.heap p w)) (h key uid q e)

  length-put :
      (p : ℕ) (new : Worker v × Bool) (s : Server v)
      → length (put_worker p new s).heap ≡ length s.heap
  unfolding put_worker
  length-put p new s = length-set s.heap p new.0

  find_worker-put_worker :
      (key : List ℕ) (uid p : ℕ) (new : Worker v × Bool) (s : Server v)
      → find_worker key uid (put_worker p new s) ≡ find_worker key uid s
  unfolding put_worker find_worker
  find_worker-put_worker key uid p new s = refl

  module _ (key : List ℕ) (creds : Creds) (now : ℕ) (draws : List ℕ) (disk : v.Disk) (s : Server v)
      (p : ℕ) (w : Worker v) where
    reuse_other :
        creds_equal w.creds creds ≡ false
        → reuse_worker key creds now draws disk s p (some w)
          ≡ new_worker key creds now draws disk (put_worker p (discard w) s)
    unfolding reuse_worker
    reuse_other other = rw other

    reuse_discarded :
        creds_equal w.creds creds ≡ true
        → use_worker now w ≡ none
        → reuse_worker key creds now draws disk s p (some w) ≡ new_worker key creds now draws disk s
    unfolding reuse_worker
    reuse_discarded same gone = rw (same, gone)

    reuse_used :
        (w' : Worker v)
        → creds_equal w.creds creds ≡ true
        → use_worker now w ≡ some w'
        → reuse_worker key creds now draws disk s p (some w)
          ≡ ok (p, draws, disk, put_worker p (w', false) s)
    unfolding reuse_worker
    reuse_used w' same used = rw (same, used)

  use_worker_lem :
      (now : ℕ) (w w' : Worker v)
      → use_worker now w ≡ some w'
      → (w'.discarded ≡ false) × (w'.creds ≡ w.creds) × (w'.in_use ≡ w.in_use +ℤ pos 1)
  unfolding use_worker
  use_worker_lem now w w' e = (ground arith, ground arith, ground arith)

  reuse_worker_lem :
      (key : List ℕ) (creds : Creds) (now d : ℕ) (draws : List ℕ) (disk : v.Disk) (s : Server v)
      → (p : ℕ) (w : Worker v) → IsStored s
      → find_worker key creds.uid s ≡ some p
      → get_elem? s.heap p ≡ some w
      → Served key creds s (reuse_worker key creds now (d ∷ draws) disk s p (some w))
  unfolding put_worker
  reuse_worker_lem key creds now d draws disk s p w h e at =
      elim (Bool-cases (creds_equal w.creds creds)) [
        | inl same ↦ elim (Option-cases (use_worker now w)) [
          | inl gone ↦
              rw (reuse_discarded key creds now (d ∷ draws) disk s p w same gone)
                (new_worker_lem key creds now d draws disk s s h refl)
          | inr (w', used) ↦
              let (alive, kept, more) = use_worker_lem now w w' used in
              (
                p,
                d ∷ draws,
                disk,
                put_worker p (w', false) s,
                reuse_used key creds now (d ∷ draws) disk s p w w' same used,
                record {
                  worker = w';
                  at = at_put p w' w s at;
                  stored = find_worker-put_worker key creds.uid p (w', false) s ∙ e;
                  alive = alive;
                  same_user = ap (λ (c : Creds). creds_equal c creds) kept ∙ same;
                  counted = inr (w, at, more);
                  valid = put_worker-IsStored p w' false s h;
                },
              )
        ]
        | inr other ↦ rw (reuse_other key creds now (d ∷ draws) disk s p w other) (
            new_worker_lem key creds now d draws disk (put_worker p (discard w) s) s
              (put_worker-IsStored p (discard w).0 (discard w).1 s h) (length-put p (discard w) s))
      ]
    where
      at_put :
          (p : ℕ) (w' w : Worker v) (s : Server v)
          → get_elem? s.heap p ≡ some w
          → get_elem? (put_worker p (w', false) s).heap p ≡ some w'
      at_put p w' w s at = get_elem?-set s.heap p w' w at

  -- If a random number can be drawn, and the stored pointers lead to workers, `GetWorker` gives a worker:
  -- the one now stored for the user in the session. It is not discarded, its credentials count as
  -- equal to those of the request, and its count includes the caller.
  pub get_worker_lem :
      (client_key : List ℕ) (creds : Creds) (session_id : List ℕ) (now d : ℕ) (draws : List ℕ)
      → (disk : v.Disk) (s : Server v) → IsStored s
      → Served
          (session_key client_key session_id)
          creds
          s
          (get_worker client_key creds session_id now (d ∷ draws) disk s)
  unfolding get_worker found_worker
  get_worker_lem client_key creds session_id now d draws disk s h =
      let key : List ℕ = session_key client_key session_id in
      elim (Option-cases (find_worker key creds.uid s)) [
        | inl missing ↦
            rw (missing, found_worker) (new_worker_lem key creds now d draws disk s s h refl)
        | inr (p, e) ↦
            let (w, at) = get_elem?-lt s.heap p (h key creds.uid p e) in
            rw (e, found_worker) (rw at (reuse_worker_lem key creds now d draws disk s p w h e at))
      ]
