-- ===== src/Clients/Invariant.antt =====
-- What holds of the table between two calls.
use nfs4go.Common.{◌∙◌}
use nfs4go.Common.{
  ℕ, ◌≡◌, ◌≢◌, sym, subst, inl, inr, not, ◌||◌, List, [], ◌∷◌, some, arith, All, ◌==◌, list_eq,
  Bool-cases,
}
use nfs4go.Common.Assoc.{lookup, insert, erase}
use nfs4go.Clients.Client.{Client}
use nfs4go.Clients.Table.{Clients, remove_unconfirmed, remove_expired, stays}
use nfs4go.Bufpool.{Pool}

-- Two entries differ in their keys, and in their names or their verifiers.
abbrev pub Apart : ℕ × Client → ℕ × Client → Type 0
Apart (k, c) (j, d) = (k ≢ j) × (c.name ≡ d.name → c.verifier ≢ d.verifier)

abbrev pub AllApart : Clients → Type 0
AllApart [] = Unit {0}
AllApart (x ∷ cs) = All (Apart x) cs × AllApart cs

abbrev pub IsKeyed : ℕ × Client → Type 0
IsKeyed (k, c) = c.client_id ≡ k

-- Each client is stored under its id, and no two have the same name and verifier.
pub record IsValid (cs : Clients) : Type 0 where
  pub keyed : All IsKeyed cs
  pub apart : AllApart cs

-- The fields that tell clients apart.
pub record SameTag (c d : Client) : Type 0 where
  pub same_id : c.client_id ≡ d.client_id
  pub same_name : c.name ≡ d.name
  pub same_verifier : c.verifier ≡ d.verifier

module _ (P : ℕ × Client → Type 0) where
  pub All-lookup : (k : ℕ) (c : Client) (cs : Clients) → All P cs → lookup k cs ≡ some c → P (k, c)
  unfolding lookup
  All-lookup k c [] h e = cc
  All-lookup k c ((j, d) ∷ cs) (hd, hs) e = elim (Bool-cases (j == k)) [
    | inl hit ↦
        let same : j ≡ k = ground arith in
        let this : d ≡ c = ground arith in subst P (λ i. (same i, this i)) hd
    | inr miss ↦ All-lookup k c cs hs (ground arith)
  ]

  pub All-insert : (k : ℕ) (c : Client) (cs : Clients) → P (k, c) → All P cs → All P (insert k c cs)
  unfolding insert
  All-insert k c [] hc h = (hc, tt)
  All-insert k c ((j, d) ∷ cs) hc (hd, hs) = elim (Bool-cases (j == k)) [
    | inl hit ↦ rw hit (hc, hs)
    | inr miss ↦ rw miss (hd, All-insert k c cs hc hs)
  ]

  pub All-erase : (k : ℕ) (cs : Clients) → All P cs → All P (erase k cs)
  unfolding erase
  All-erase k [] h = tt
  All-erase k ((j, d) ∷ cs) (hd, hs) = elim (Bool-cases (j == k)) [
    | inl hit ↦ rw hit (All-erase k cs hs)
    | inr miss ↦ rw miss (hd, All-erase k cs hs)
  ]

  pub All-remove_unconfirmed :
      (name : List ℕ) (cs : Clients) → All P cs → All P (remove_unconfirmed name cs)
  unfolding remove_unconfirmed
  All-remove_unconfirmed name [] h = tt
  All-remove_unconfirmed name ((j, d) ∷ cs) (hd, hs) =
      elim (Bool-cases (d.confirmed || not (list_eq d.name name))) [
        | inl kept ↦ rw kept (hd, All-remove_unconfirmed name cs hs)
        | inr gone ↦ rw gone (All-remove_unconfirmed name cs hs)
      ]

  pub All-remove_expired :
      (now expiration : ℕ) (cs : Clients) (pool : Pool)
      → All P cs
      → All P (remove_expired now expiration cs pool).1
  unfolding remove_expired
  All-remove_expired now expiration [] pool h = tt
  All-remove_expired now expiration ((j, d) ∷ cs) pool (hd, hs) =
      elim (Bool-cases (stays now expiration d)) [
        | inl kept ↦ rw kept (hd, All-remove_expired now expiration cs _ hs)
        | inr gone ↦ rw gone (All-remove_expired now expiration cs _ hs)
      ]

Apart-tag : (x : ℕ × Client) (k : ℕ) (c d : Client) → SameTag c d → Apart x (k, c) → Apart x (k, d)
Apart-tag (j, e) k c d t (hk, hn) = (hk, λ n v. hn (n ∙ sym t.same_name) (v ∙ sym t.same_verifier))

Apart-sym : (x y : ℕ × Client) → Apart x y → Apart y x
Apart-sym (j, c) (k, d) (hk, hn) = (λ e. hk (sym e), λ n v. hn (sym n) (sym v))

All-map :
    (P Q : ℕ × Client → Type 0) (cs : Clients)
    → ((x : ℕ × Client) → P x → Q x)
    → All P cs
    → All Q cs
All-map P Q [] f h = tt
All-map P Q (x ∷ cs) f (hx, hs) = (f x hx, All-map P Q cs f hs)

-- A client replaced by one with the same tag stays apart from the others.
AllApart-insert_same :
    (k : ℕ) (c d : Client) (cs : Clients)
    → lookup k cs ≡ some c
    → SameTag c d
    → AllApart cs
    → AllApart (insert k d cs)
unfolding lookup insert
AllApart-insert_same k c d [] e t h = cc
AllApart-insert_same k c d ((j, x) ∷ cs) e t (hx, hs) = elim (Bool-cases (j == k)) [
  | inl hit ↦
      let same : j ≡ k = ground arith in
      let this : x ≡ c = ground arith in
      let front : All (Apart (k, c)) cs =
        subst (λ p. All (Apart p) cs) (λ i. (same i, this i)) hx in
      rw hit (
        All-map (Apart (k, c)) (Apart (k, d)) cs
            (λ y a. Apart-sym y (k, d) (Apart-tag y k c d t (Apart-sym (k, c) y a))) front,
        hs,
      )
  | inr miss ↦
      let found : lookup k cs ≡ some c = ground arith in
      rw miss (
        All-insert (Apart (j, x)) k d cs
            (Apart-tag (j, x) k c d t (All-lookup (Apart (j, x)) k c cs hx found)) hx,
        AllApart-insert_same k c d cs found t hs,
      )
]

-- A client under a new key that is apart from all is added.
AllApart-insert_new :
    (k : ℕ) (d : Client) (cs : Clients)
    → All (λ x. Apart x (k, d)) cs
    → AllApart cs
    → AllApart (insert k d cs)
unfolding insert
AllApart-insert_new k d [] a h = (tt, tt)
AllApart-insert_new k d ((j, x) ∷ cs) (ax, as') (hx, hs) = elim (Bool-cases (j == k)) [
  | inl hit ↦ absurd (ax.0 (ground arith))
  | inr miss ↦ rw miss (All-insert (Apart (j, x)) k d cs ax hx, AllApart-insert_new k d cs as' hs)
]

AllApart-erase : (k : ℕ) (cs : Clients) → AllApart cs → AllApart (erase k cs)
unfolding erase
AllApart-erase k [] h = tt
AllApart-erase k ((j, d) ∷ cs) (hd, hs) = elim (Bool-cases (j == k)) [
  | inl hit ↦ rw hit (AllApart-erase k cs hs)
  | inr miss ↦ rw miss (All-erase (Apart (j, d)) k cs hd, AllApart-erase k cs hs)
]

AllApart-remove_unconfirmed :
    (name : List ℕ) (cs : Clients) → AllApart cs → AllApart (remove_unconfirmed name cs)
unfolding remove_unconfirmed
AllApart-remove_unconfirmed name [] h = tt
AllApart-remove_unconfirmed name ((j, d) ∷ cs) (hd, hs) =
    elim (Bool-cases (d.confirmed || not (list_eq d.name name))) [
      | inl kept ↦
          rw kept (
            All-remove_unconfirmed (Apart (j, d)) name cs hd,
            AllApart-remove_unconfirmed name cs hs,
          )
      | inr gone ↦ rw gone (AllApart-remove_unconfirmed name cs hs)
    ]

AllApart-remove_expired :
    (now expiration : ℕ) (cs : Clients) (pool : Pool)
    → AllApart cs
    → AllApart (remove_expired now expiration cs pool).1
unfolding remove_expired
AllApart-remove_expired now expiration [] pool h = tt
AllApart-remove_expired now expiration ((j, d) ∷ cs) pool (hd, hs) =
    elim (Bool-cases (stays now expiration d)) [
      | inl kept ↦ rw kept (
        All-remove_expired (Apart (j, d)) now expiration cs _ hd,
        AllApart-remove_expired now expiration cs _ hs,
      )
      | inr gone ↦ rw gone (AllApart-remove_expired now expiration cs _ hs)
    ]

pub IsValid-insert_same :
    (k : ℕ) (c d : Client) (cs : Clients)
    → lookup k cs ≡ some c
    → SameTag c d
    → IsValid cs
    → IsValid (insert k d cs)
IsValid-insert_same k c d cs e t v = record {
  keyed = All-insert IsKeyed k d cs (sym t.same_id ∙ All-lookup IsKeyed k c cs v.keyed e) v.keyed;
  apart = AllApart-insert_same k c d cs e t v.apart;
}

pub IsValid-insert_new :
    (k : ℕ) (d : Client) (cs : Clients)
    → d.client_id ≡ k
    → All (λ x. Apart x (k, d)) cs
    → IsValid cs
    → IsValid (insert k d cs)
IsValid-insert_new k d cs e a v = record {
  keyed = All-insert IsKeyed k d cs e v.keyed;
  apart = AllApart-insert_new k d cs a v.apart;
}

pub IsValid-erase : (k : ℕ) (cs : Clients) → IsValid cs → IsValid (erase k cs)
IsValid-erase k cs v = record {
  keyed = All-erase IsKeyed k cs v.keyed;
  apart = AllApart-erase k cs v.apart;
}

pub IsValid-remove_unconfirmed :
    (name : List ℕ) (cs : Clients) → IsValid cs → IsValid (remove_unconfirmed name cs)
IsValid-remove_unconfirmed name cs v = record {
  keyed = All-remove_unconfirmed IsKeyed name cs v.keyed;
  apart = AllApart-remove_unconfirmed name cs v.apart;
}

pub IsValid-remove_expired :
    (now expiration : ℕ) (cs : Clients) (pool : Pool)
    → IsValid cs
    → IsValid (remove_expired now expiration cs pool).1
IsValid-remove_expired now expiration cs pool v = record {
  keyed = All-remove_expired IsKeyed now expiration cs pool v.keyed;
  apart = AllApart-remove_expired now expiration cs pool v.apart;
}
