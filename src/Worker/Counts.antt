-- ===== src/Worker/Counts.antt =====
-- worker/file.go and `cleanup`: a client counts its open files.
use nfs4go.Common.{
  ℕ, suc, ◌+◌, ◌≡◌, refl, sym, ap, ◌∙◌, List, [], ◌∷◌, none, some, arith, ◌==◌, if◌then◌else◌,
  Bool-cases, Option-cases, inl, inr,
}
use nfs4go.Common.Assoc.{lookup, insert, erase, lookup-insert, IsDistinct}
use nfs4go.Common.Int.{ℤ, pos, ◌+ℤ◌, ◌-ℤ◌}
use nfs4go.Clients.Client.{Client}
use nfs4go.Clients.Table.{Clients}
use nfs4go.Clients.History.{on_client}
use nfs4go.Vfs.{Vfs}
use nfs4go.Worker.State.{File}

module _ {v : Vfs} where
  -- The number of open files of a client.
  abbrev pub open_files : ℕ → List (ℕ × File v) → ℕ
  open_files id [] = 0
  open_files id ((index, f) ∷ rest) =
      if f.client == id then suc (open_files id rest) else open_files id rest

  pub open_files-insert :
      (id index : ℕ) (f : File v) (files : List (ℕ × File v))
      → lookup index files ≡ none
      → open_files id (insert index f files)
        ≡ open_files id files + (if f.client == id then 1 else 0)
  unfolding lookup insert
  open_files-insert id index f [] e = ground arith
  open_files-insert id index f ((other, g) ∷ rest) e =
      ground (arith, open_files-insert id index f rest)

  open_files-erase_absent :
      (id index : ℕ) (files : List (ℕ × File v))
      → lookup index files ≡ none
      → open_files id (erase index files) ≡ open_files id files
  unfolding lookup erase
  open_files-erase_absent id index [] e = refl
  open_files-erase_absent id index ((other, g) ∷ rest) e = elim (Bool-cases (other == index)) [
    | inl hit ↦ absurd (ground (arith, hit))
    | inr miss ↦ ground (arith, miss, open_files-erase_absent id index rest)
  ]

  pub open_files-erase :
      (id index : ℕ) (f : File v) (files : List (ℕ × File v))
      → IsDistinct files
      → lookup index files ≡ some f
      → open_files id files ≡ open_files id (erase index files) + (if f.client == id then 1 else 0)
  unfolding lookup erase
  open_files-erase id index f [] d e = cc
  open_files-erase id index f ((other, g) ∷ rest) (free, d) e = elim (Bool-cases (other == index)) [
    | inl hit ↦
        let same : other ≡ index = ground arith in
        let this : g ≡ f = ground arith in
        let gone : lookup index rest ≡ none = ap (λ (k : ℕ). lookup k rest) (sym same) ∙ free in
        rw (hit, this) (ground (arith, open_files-erase_absent id index rest gone))
    | inr miss ↦ rw miss (ground (arith, miss, open_files-erase id index f rest d))
  ]

-- The client `id` is in the table and its count is `base` and the files that are open here.
abbrev pub Counts : {v : Vfs} → ℕ → ℤ → List (ℕ × File v) → Clients → Type 0
Counts id base files cs =
    (c : Client) × (lookup id cs ≡ some c) × (c.busy ≡ base +ℤ pos (open_files id files))

pub add_one : (base : ℤ) (n : ℕ) → (base +ℤ pos n) +ℤ pos 1 ≡ base +ℤ pos (n + 1)
unfolding ◌+ℤ◌
add_one base n = ground arith

pub sub_one : (base : ℤ) (n : ℕ) → (base +ℤ pos (n + 1)) -ℤ pos 1 ≡ base +ℤ pos n
unfolding ◌+ℤ◌ ◌-ℤ◌
sub_one base n = ground arith

-- Another change of the table: `f` changes the count of the client `j` by `g`.
pub on_client-Counts :
    (f : Client → Client) (g : ℤ → ℤ) (j id : ℕ) (n : ℤ) (cs : Clients)
    → ((c : Client) → (f c).busy ≡ g c.busy)
    → (c : Client) × (lookup id cs ≡ some c) × (c.busy ≡ n)
    → (c : Client) × (lookup id (on_client f j cs) ≡ some c)
      × (c.busy ≡ (if j == id then g n else n))
unfolding on_client
on_client-Counts f g j id n cs busy (c, at, e) = elim (Bool-cases (j == id)) [
  | inl hit ↦
      let here : j ≡ id = ground arith in
      rw (hit, here, at, on_client) (f c, lookup-insert j id (f c) cs ∙ rw hit, busy c ∙ ap g e)
  | inr miss ↦ elim (Option-cases (lookup j cs)) [
    | inl none_here ↦ rw (miss, none_here, on_client) (c, at, e)
    | inr (d, found) ↦ rw (miss, found, on_client) (c, lookup-insert j id (f d) cs ∙ rw miss at, e)
  ]
]
