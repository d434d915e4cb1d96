-- ===== src/Clients/Leases.antt =====
-- A client with open files is not lost, and only opening and closing files changes its count.
use nfs4go.Common.{
  ℕ, ◌≡◌, refl, sym, ap, subst, ◌∙◌, true, List, Option, none, some, arith, ◌==◌, if◌then◌else◌,
  Option-cases, Bool-cases, inl, inr, Result, ok, err, panic, stuck, >>=-eq-ok, ok-injective,
  some_inj,
}
use nfs4go.Common.Assoc.{lookup, insert, lookup-insert, lookup-erase}
use nfs4go.Common.Int.{ℤ, pos, ◌+ℤ◌, ◌-ℤ◌, is_pos}
use nfs4go.Auth.{Creds}
use nfs4go.Bufpool.{Pool}
use nfs4go.Clients.Client.{Client, add_busy, done, fresh_key, draw}
use nfs4go.Clients.Table.{
  Clients, Added, add, add_new, update_same, confirm, confirm41, confirmed41, unconfirmed41,
  confirm_client, get, get_by_name, remove_client, remove_expired, remove_unconfirmed, find_same,
  in_use_by_other, stored_as,
}
use nfs4go.Clients.Invariant.{IsValid}
use nfs4go.Clients.Expiry.{lookup-remove_unconfirmed, kept, lookup-remove_expired}
use nfs4go.Clients.Preserve.{fresh_key_lem, find_same_head, get_by_name_stored, session_client}
use nfs4go.Clients.History.{
  Call, adds, confirms, confirms41, gets, gets_by_name, removes, expires, opens, closes, after,
  after_add, after_get, step, on_client,
}

-- The client `id` is in the table, confirmed, and counts `n` open files.
abbrev pub IsHeld : ℕ → ℤ → Clients → Type 0
IsHeld id n cs = (c : Client) × (lookup id cs ≡ some c) × (c.confirmed ≡ true) × (c.busy ≡ n)

module _ (id : ℕ) (n : ℤ) where
  -- Another client, or the same one with its confirmation and its count, is stored.
  IsHeld-insert_same :
      (j : ℕ) (c d : Client) (cs : Clients)
      → lookup j cs ≡ some c
      → (c.confirmed ≡ true → d.confirmed ≡ true)
      → d.busy ≡ c.busy
      → IsHeld id n cs
      → IsHeld id n (insert j d cs)
  IsHeld-insert_same j c d cs found conf same (h, at, hc, hb) = elim (Bool-cases (j == id)) [
    | inl hit ↦
        let here : j ≡ id = ground arith in
        let this : h ≡ c = some_inj (sym at ∙ ap (λ k. lookup k cs) (sym here) ∙ found) in
        (
          d,
          lookup-insert j id d cs ∙ rw hit,
          conf (ap (λ (x : Client). x.confirmed) (sym this) ∙ hc),
          same ∙ ap (λ (x : Client). x.busy) (sym this) ∙ hb,
        )
    | inr miss ↦ (h, lookup-insert j id d cs ∙ rw miss at, hc, hb)
  ]

  IsHeld-insert_new :
      (j : ℕ) (d : Client) (cs cs' : Clients)
      → lookup j cs ≡ none
      → IsHeld id n cs
      → lookup id cs' ≡ lookup id cs
      → IsHeld id n (insert j d cs')
  IsHeld-insert_new j d cs cs' free (h, at, hc, hb) e = elim (Bool-cases (j == id)) [
    | inl hit ↦ let here : j ≡ id = ground arith in absurd (clash here)
    | inr miss ↦ (h, lookup-insert j id d cs' ∙ rw miss (e ∙ at), hc, hb)
  ]
    where
      clash : j ≡ id → ⊥
      clash here = let both : some h ≡ none = sym at ∙ ap (λ k. lookup k cs) (sym here) ∙ free in cc

-- The count of the client `id` after a call: `opens` and `closes` of this client change it by one.
abbrev pub busy_after : Call → ℕ → ℤ → ℤ
busy_after (opens j) id n = if j == id then n +ℤ pos 1 else n
busy_after (closes j) id n = if j == id then n -ℤ pos 1 else n
busy_after (adds now draws client) id n = n
busy_after (confirms now j value creds) id n = n
busy_after (confirms41 now j seq_id creds) id n = n
busy_after (gets now j) id n = n
busy_after (gets_by_name now name verifier creds) id n = n
busy_after (removes j) id n = n
busy_after (expires now expiration pool) id n = n

module _ (id : ℕ) (n : ℤ) (cs : Clients) (v : IsValid cs) (open_files : is_pos n ≡ true)
    (held : IsHeld id n cs) where
  add-IsHeld :
      (now : ℕ) (draws : List ℕ) (client : Client) (a : Added)
      → add now draws client cs ≡ ok a
      → IsHeld id n a.clients
  unfolding add add_new update_same
  add-IsHeld now draws client a e =
      elim (Bool-cases (in_use_by_other client.name client.creds cs)) [
        | inl busy ↦ absurd (ground arith)
        | inr free ↦ elim (Option-cases (find_same client.name client.verifier cs)) [
          | inl missing ↦
              let e' : add_new now draws client cs ≡ ok a = ground arith in
              let ((j, draws'), p, q) = >>=-eq-ok (fresh_key cs draws) _ e' in
              let ((value, draws''), p', q') = >>=-eq-ok (draw draws') _ q in
              subst (λ (x : Added). IsHeld id n x.clients) (ok-injective q')
                (IsHeld-insert_new id n j (stored_as now j value client) cs
                  (remove_unconfirmed client.name cs) (fresh_key_lem cs draws p) held
                  (lookup-remove_unconfirmed client.name id cs held.0 held.1 held.2 ∙ sym held.1))
          | inr ((j, stored), found) ↦
              let e' : update_same now draws j stored cs ≡ ok a = ground arith in
              let ((value, draws'), p, q) = >>=-eq-ok (draw draws) _ e' in
              subst (λ (x : Added). IsHeld id n x.clients) (ok-injective q)
                (IsHeld-insert_same id n j stored _ cs
                  (find_same_head client.name client.verifier cs j stored v.apart found) (λ c. c)
                  refl held)
        ]
      ]

  confirm-IsHeld :
      (now j value : ℕ) (creds : Creds) (cs' : Clients)
      → confirm now j value creds cs ≡ ok cs'
      → IsHeld id n cs'
  unfolding confirm
  confirm-IsHeld now j value creds cs' e = elim (Option-cases (lookup j cs)) [
    | inl missing ↦ absurd (ground arith)
    | inr (c, found) ↦
        subst (IsHeld id n) (ground arith)
          (IsHeld-insert_same id n j c (confirm_client now c) cs found (λ _. refl) refl held)
  ]

  session_client_keeps :
      (now seq_id : ℕ) (creds : Creds) (c d : Client)
      → session_client now seq_id creds c ≡ ok d
      → (c.confirmed ≡ true → d.confirmed ≡ true) × (d.busy ≡ c.busy)
  unfolding session_client confirmed41 unconfirmed41
  session_client_keeps now seq_id creds c d e = (λ h. ground arith, ground arith)

  confirm41-IsHeld :
      (now j seq_id : ℕ) (creds : Creds) (cs' : Clients)
      → confirm41 now j seq_id creds cs ≡ ok cs'
      → IsHeld id n cs'
  unfolding confirm41 session_client
  confirm41-IsHeld now j seq_id creds cs' e = elim (Option-cases (lookup j cs)) [
    | inl missing ↦ absurd (ground arith)
    | inr (c, found) ↦
        let (d, p, q) =
          >>=-eq-ok (session_client now seq_id creds c) (λ d. ok (insert j d cs)) (ground arith) in
        let (conf, same) = session_client_keeps now seq_id creds c d p in
        subst (IsHeld id n) (ok-injective q) (IsHeld-insert_same id n j c d cs found conf same held)
  ]

  get-IsHeld :
      (now j : ℕ) (c : Client) (cs' : Clients) → get now j cs ≡ some (c, cs') → IsHeld id n cs'
  unfolding get
  get-IsHeld now j c cs' e = elim (Option-cases (lookup j cs)) [
    | inl missing ↦ absurd (ground arith)
    | inr (d, found) ↦
        subst (IsHeld id n) (ground arith)
          (IsHeld-insert_same id n j d (record d { last_seen = now }) cs found (λ h. h) refl held)
  ]

  get_by_name-IsHeld :
      (now : ℕ) (name : List ℕ) (verifier : ℕ) (creds : Creds) (j : ℕ) (cs' : Clients)
      → get_by_name now name verifier creds cs ≡ some (j, cs')
      → IsHeld id n cs'
  get_by_name-IsHeld now name verifier creds j cs' e =
      let (c, found, _, q) = get_by_name_stored now name verifier creds cs cs' j v e in
      subst (IsHeld id n) q
        (IsHeld-insert_same id n j c (record c { last_seen = now }) cs found (λ h. h) refl held)

  remove_client-IsHeld : (j : ℕ) (cs' : Clients) → remove_client j cs ≡ ok cs' → IsHeld id n cs'
  unfolding remove_client
  remove_client-IsHeld j cs' e = elim (Option-cases (lookup j cs)) [
    | inl missing ↦ absurd (ground arith)
    | inr (d, found) ↦ elim (Bool-cases (j == id)) [
      | inl hit ↦
          let here : j ≡ id = ground arith in
          let this : held.0 ≡ d =
            some_inj (sym held.1 ∙ ap (λ k. lookup k cs) (sym here) ∙ found) in
          let busy : is_pos d.busy ≡ true =
            ap (λ (x : Client). is_pos x.busy) (sym this) ∙ ap is_pos held.3 ∙ open_files in
          absurd (ground arith)
      | inr miss ↦
          subst (IsHeld id n) (ground arith)
            (held.0, lookup-erase j id cs ∙ rw miss held.1, held.2, held.3)
    ]
  ]

  expires-IsHeld :
      (now expiration : ℕ) (pool : Pool) → IsHeld id n (remove_expired now expiration cs pool).1
  expires-IsHeld now expiration pool =
      let (c, at, conf, busy) = held in
      (c, lookup-remove_expired now expiration id cs pool v ∙ rw at (stay c busy), conf, busy)
    where
      stay : (c : Client) → c.busy ≡ n → kept now expiration (some c) ≡ some c
      stay c busy =
          let pos_busy : is_pos c.busy ≡ true = ap is_pos busy ∙ open_files in
          rw pos_busy (ground arith)

on_client-IsHeld :
    (f : Client → Client) (g : ℤ → ℤ) (j id : ℕ) (n : ℤ) (cs : Clients)
    → ((c : Client) → (f c).confirmed ≡ c.confirmed)
    → ((c : Client) → (f c).busy ≡ g c.busy)
    → IsHeld id n cs
    → IsHeld id (if j == id then g n else n) (on_client f j cs)
unfolding on_client
on_client-IsHeld f g j id n cs conf busy (h, at, hc, hb) = elim (Bool-cases (j == id)) [
  | inl hit ↦
      let here : j ≡ id = ground arith in
      rw (hit, here, at, on_client)
        (f h, lookup-insert j id (f h) cs ∙ rw hit, conf h ∙ hc, busy h ∙ ap g hb)
  | inr miss ↦ elim (Option-cases (lookup j cs)) [
    | inl none_here ↦ rw (miss, none_here, on_client) (h, at, hc, hb)
    | inr (c, found) ↦
        rw (miss, found, on_client) (h, lookup-insert j id (f c) cs ∙ rw miss at, hc, hb)
  ]
]

after-IsHeld :
    (id : ℕ) (n : ℤ) (cs : Clients) (r : Result Clients)
    → IsHeld id n cs
    → ((cs' : Clients) → r ≡ ok cs' → IsHeld id n cs')
    → IsHeld id n (after cs r)
after-IsHeld id n cs (ok cs') h k = k cs' refl
after-IsHeld id n cs (err e) h k = h
after-IsHeld id n cs panic h k = h
after-IsHeld id n cs stuck h k = h

after_add-IsHeld :
    (id : ℕ) (n : ℤ) (cs : Clients) (r : Result Added)
    → IsHeld id n cs
    → ((a : Added) → r ≡ ok a → IsHeld id n a.clients)
    → IsHeld id n (after_add cs r)
after_add-IsHeld id n cs (ok a) h k = k a refl
after_add-IsHeld id n cs (err e) h k = h
after_add-IsHeld id n cs panic h k = h
after_add-IsHeld id n cs stuck h k = h

after_get-IsHeld :
    {A : Type 0} (id : ℕ) (n : ℤ) (cs : Clients) (r : Option (A × Clients))
    → IsHeld id n cs
    → ((a : A) (cs' : Clients) → r ≡ some (a, cs') → IsHeld id n cs')
    → IsHeld id n (after_get cs r)
after_get-IsHeld id n cs none h k = h
after_get-IsHeld id n cs (some (a, cs')) h k = k a cs' refl

opens_keeps :
    (c : Client)
    → ((add_busy (pos 1) c).confirmed ≡ c.confirmed) × ((add_busy (pos 1) c).busy ≡ c.busy +ℤ pos 1)
unfolding add_busy
opens_keeps c = (refl, refl)

closes_keeps : (c : Client) → ((done c).confirmed ≡ c.confirmed) × ((done c).busy ≡ c.busy -ℤ pos 1)
unfolding done
closes_keeps c = (refl, refl)

-- In a valid table a confirmed client with open files stays in the table and confirmed under every call,
-- and its count changes by exactly one for each file opened or closed on it, and by nothing else.
pub step-IsHeld :
    (call : Call) (id : ℕ) (n : ℤ) (cs : Clients)
    → IsValid cs
    → is_pos n ≡ true
    → IsHeld id n cs
    → IsHeld id (busy_after call id n) (step call cs)
unfolding step
step-IsHeld (adds now draws client) id n cs v o h =
    after_add-IsHeld id n cs _ h (λ a e. add-IsHeld id n cs v o h now draws client a e)
step-IsHeld (confirms now j value creds) id n cs v o h =
    after-IsHeld id n cs _ h (λ cs' e. confirm-IsHeld id n cs v o h now j value creds cs' e)
step-IsHeld (confirms41 now j seq_id creds) id n cs v o h =
    after-IsHeld id n cs _ h (λ cs' e. confirm41-IsHeld id n cs v o h now j seq_id creds cs' e)
step-IsHeld (gets now j) id n cs v o h =
    after_get-IsHeld id n cs _ h (λ c cs' e. get-IsHeld id n cs v o h now j c cs' e)
step-IsHeld (gets_by_name now name verifier creds) id n cs v o h =
    after_get-IsHeld id n cs _ h
      (λ j cs' e. get_by_name-IsHeld id n cs v o h now name verifier creds j cs' e)
step-IsHeld (removes j) id n cs v o h =
    after-IsHeld id n cs _ h (λ cs' e. remove_client-IsHeld id n cs v o h j cs' e)
step-IsHeld (expires now expiration pool) id n cs v o h =
    expires-IsHeld id n cs v o h now expiration pool
step-IsHeld (opens j) id n cs v o h =
    on_client-IsHeld _ (λ m. m +ℤ pos 1) j id n cs (λ c. (opens_keeps c).0) (λ c. (opens_keeps c).1)
      h
step-IsHeld (closes j) id n cs v o h =
    on_client-IsHeld _ (λ m. m -ℤ pos 1) j id n cs (λ c. (closes_keeps c).0)
      (λ c. (closes_keeps c).1) h
