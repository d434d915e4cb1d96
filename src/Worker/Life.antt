-- ===== src/Worker/Life.antt =====
-- worker/worker.go: a worker, the goroutines that hold it, and its clean-ups, step by step.
use nfs4go.Common.{
  ℕ, zero, suc, ◌+◌, ◌<◌, ◌≡◌, refl, Bool, true, ◌&&◌, List, [], arith, ◌==◌, if◌then◌else◌, inl,
  inr, some, ok, >>=-eq-ok, ok-injective, subst, ◌⊎◌,
}
use nfs4go.Common.Int.{pos, ◌+ℤ◌, ◌-ℤ◌}
use nfs4go.Auth.{Creds}
use nfs4go.Clients.Client.{draw}
use nfs4go.Clients.Table.{Clients}
use nfs4go.Vfs.{Vfs}
use nfs4go.Worker.State.{Worker}
use nfs4go.Worker.Listers.{cleanup_listers}
use nfs4go.Worker.Lifecycle.{new, use_worker, discard, close, auto_discard, cleanup}

-- `holders` counts the goroutines between `New` or `Use` and their `Close`, `pending` the clean-ups that
-- were started and did not run yet, and `cleaned` those that ran.
pub record Life (v : Vfs) : Type 0 where
  pub worker : Worker v
  pub holders : ℕ
  pub pending : ℕ
  pub cleaned : ℕ
  pub disk : v.Disk
  pub clients : Clients

module _ {v : Vfs} where
  -- What a call leaves: the worker, and one clean-up more if it started one.
  unfoldable pub started : Worker v × Bool → Life v → Life v
  started (w, start) l = record l {
    worker = w;
    pending = if start then suc l.pending else l.pending;
  }

  unfoldable pub cleans_up : ℕ → Life v → Life v
  unfolding cleanup
  cleans_up left l =
      let (w, disk', cs) = cleanup l.worker l.disk l.clients in
      record l { worker = w; pending = left; cleaned = suc l.cleaned; disk = disk'; clients = cs }

  unfoldable pub expires_listers : ℕ → Life v → Life v
  unfolding cleanup_listers
  expires_listers now l =
      let (w, disk') = cleanup_listers now l.worker l.disk in record l { worker = w; disk = disk' }

  -- The worker of `New`, which its goroutine holds.
  unfoldable pub born : Worker v → v.Disk → Clients → Life v
  born w disk cs = record {
    worker = w;
    holders = 1;
    pending = 0;
    cleaned = 0;
    disk = disk;
    clients = cs;
  }

  -- Only a goroutine that holds the worker closes it or works with it: a step `works` changes anything
  -- but the count and the mark.
  pub data Step : Life v → Life v → Type 0 where
    uses :
        (l : Life v) (now : ℕ) (w : Worker v)
        → use_worker now l.worker ≡ some w
        → Step l (record l { worker = w; holders = suc l.holders })
    closes :
        (l : Life v) (n : ℕ)
        → l.holders ≡ suc n
        → Step l (started (close l.worker) (record l { holders = n }))
    discards : (l : Life v) → Step l (started (discard l.worker) l)
    ticks :
        (l : Life v) (must_discard : Bool) (now : ℕ)
        → Step l (started (auto_discard must_discard now l.worker) l)
    works :
        (l : Life v) (w : Worker v) (disk : v.Disk) (cs : Clients)
        → 0 < l.holders
        → w.in_use ≡ l.worker.in_use
        → w.discarded ≡ l.worker.discarded
        → Step l (record l { worker = w; disk = disk; clients = cs })
    expires : (l : Life v) (now : ℕ) → Step l (expires_listers now l)
    cleans : (l : Life v) (left : ℕ) → l.pending ≡ suc left → Step l (cleans_up left l)

  pub data Reach (l : Life v) : Life v → Type 0 where
    here : Reach l l
    next : {m n : Life v} → Reach l m → Step m n → Reach l n

  -- The count is the number of holders; a clean-up is started or done, once, exactly when the worker is
  -- discarded and nobody holds it; after it nothing is open.
  pub record IsSound (l : Life v) : Type 0 where
    pub counted : l.worker.in_use ≡ pos l.holders
    pub once : l.pending + l.cleaned ≡ (if l.worker.discarded && l.holders == 0 then 1 else 0)
    pub emptied :
        0 < l.cleaned
        → (l.worker.files ≡ []) × (l.worker.listers ≡ []) × (l.worker.discarded ≡ true)

  born-IsSound :
      (creds : Creds) (now : ℕ) (draws draws' : List ℕ) (disk disk' : v.Disk) (w : Worker v)
      → (cs : Clients) → new creds now draws disk ≡ ok (w, draws', disk')
      → IsSound (born w disk' cs)
  unfolding new born
  born-IsSound creds now draws draws' disk disk' w cs e =
      let (drawn, p, q) = >>=-eq-ok (draw draws) _ e in
      subst (λ (x : Worker v × List ℕ × v.Disk). IsSound (born x.0 disk' cs)) (ok-injective q)
        (record { counted = refl; once = refl; emptied = ground arith })

  Step-IsSound : {l m : Life v} → Step l m → IsSound l → IsSound m
  unfolding use_worker started close discard auto_discard cleans_up expires_listers ◌+ℤ◌ ◌-ℤ◌
  Step-IsSound (uses l now w e) s = record {
    counted = ground arith;
    once = ground arith;
    emptied = ground arith;
  }
  Step-IsSound (closes l n h) s = record {
    counted = ground arith;
    once = ground arith;
    emptied = ground arith;
  }
  Step-IsSound (discards l) s = record {
    counted = ground arith;
    once = ground arith;
    emptied = ground arith;
  }
  Step-IsSound (ticks l must now) s = record {
    counted = ground arith;
    once = ground arith;
    emptied = ground arith;
  }
  Step-IsSound (works l w disk cs h same marked) s = record {
    counted = ground arith;
    once = ground arith;
    emptied = ground arith;
  }
  Step-IsSound (expires l now) s = record {
    counted = ground arith;
    once = ground arith;
    emptied = ground arith;
  }
  Step-IsSound (cleans l left h) s = record {
    counted = ground arith;
    once = ground arith;
    emptied = ground arith;
  }

  -- From `New` on, whatever the calls, ticks and clean-ups and their order: the worker's count is the
  -- number of goroutines that hold it; one clean-up is started or done if the worker is discarded and
  -- nobody holds it, and none otherwise; after it no file and no directory is open.
  pub Reach-IsSound :
      (creds : Creds) (now : ℕ) (draws draws' : List ℕ) (disk disk' : v.Disk) (w : Worker v)
      → (cs : Clients) (l : Life v) → new creds now draws disk ≡ ok (w, draws', disk')
      → Reach (born w disk' cs) l
      → IsSound l
  Reach-IsSound creds now draws draws' disk disk' w cs l e here =
      born-IsSound creds now draws draws' disk disk' w cs e
  Reach-IsSound creds now draws draws' disk disk' w cs l e (next {m} r st) =
      Step-IsSound st (Reach-IsSound creds now draws draws' disk disk' w cs m e r)

  -- The holders close the worker and started clean-ups run: nothing else happens.
  pub data Drains : Life v → Life v → Type 0 where
    drained : (l : Life v) → Drains l l
    close_next :
        (l m n : Life v) (left : ℕ)
        → l.holders ≡ suc left
        → m ≡ started (close l.worker) (record l { holders = left })
        → Drains m n
        → Drains l n
    clean_next :
        (l m n : Life v) (left : ℕ)
        → l.pending ≡ suc left
        → m ≡ cleans_up left l
        → Drains m n
        → Drains l n

  -- A state in which the clean-up ran, once, and nothing is open.
  pub record IsFinished (l : Life v) : Type 0 where
    pub nobody : l.holders ≡ 0
    pub cleaned_once : l.cleaned ≡ 1
    pub none_pending : l.pending ≡ 0
    pub no_files : l.worker.files ≡ []
    pub no_listers : l.worker.listers ≡ []

  finish :
      (l : Life v) (n : ℕ)
      → l.holders ≡ n
      → l.worker.discarded ≡ true
      → IsSound l
      → (m : Life v) × Drains l m × IsFinished m
  unfolding close started cleans_up
  finish l (suc n) h d s =
      let l' : Life v = started (close l.worker) (record l { holders = n }) in
      let (m, r, f) = finish l' n refl d (Step-IsSound (closes l n h) s) in
      (m, close_next l l' m n h refl r, f)
  finish l zero h d s = elim (pending_cases l.pending) [
    | inl none_left ↦
        let one : l.cleaned ≡ 1 = ground (arith, s.once) in
        (
          l,
          drained l,
          record {
            nobody = h;
            cleaned_once = one;
            none_pending = none_left;
            no_files = (s.emptied (ground arith)).0;
            no_listers = (s.emptied (ground arith)).1;
          },
        )
    | inr (left, e) ↦ (
      cleans_up left l,
      clean_next l (cleans_up left l) (cleans_up left l) left e refl (drained (cleans_up left l)),
      record {
        nobody = h;
        cleaned_once = ground (arith, s.once);
        none_pending = ground (arith, s.once);
        no_files = refl;
        no_listers = refl;
      },
    )
  ]
    where
      pending_cases : (n : ℕ) → (n ≡ 0) ⊎ ((m : ℕ) × (n ≡ suc m))
      pending_cases zero = inl refl
      pending_cases (suc m) = inr (m, refl)

  -- Once a worker is discarded, whatever happened before, its holders closing it and started clean-ups
  -- running lead, with no other step, to a state where nobody holds it, the clean-up has run exactly once
  -- and no file and no directory is open.
  pub discarded_finishes :
      (creds : Creds) (now : ℕ) (draws draws' : List ℕ) (disk disk' : v.Disk) (w : Worker v)
      → (cs : Clients) (l : Life v) → new creds now draws disk ≡ ok (w, draws', disk')
      → Reach (born w disk' cs) l
      → l.worker.discarded ≡ true
      → (m : Life v) × Drains l m × IsFinished m
  discarded_finishes creds now draws draws' disk disk' w cs l e r d =
      finish l l.holders refl d (Reach-IsSound creds now draws draws' disk disk' w cs l e r)
