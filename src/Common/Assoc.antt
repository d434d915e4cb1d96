-- ===== src/Common/Assoc.antt =====
-- A Go map with integer keys, as an association list: the order of the list is the order in which
-- `range` visits the map.
use Prim.Native.Nat.{ℕ}
use mathlib.Core.Path.{◌≡◌, refl, sym, ap, ◌∙◌}
use mathlib.Core.Logic.{inl, inr}
use mathlib.Core.Bool.{false}
use mathlib.Core.Option.{Option, none, some}
use mathlib.Core.List.{List, [], ◌∷◌}
use native.Mathlib.Omega.{arith}
use nfs4go.Common.Tests.{◌==◌, if◌then◌else◌, Bool-cases}

module _ {ℓ} {V : Type ℓ} where
  -- `m[key]` with its `ok`.
  unfoldable pub lookup : ℕ → List (ℕ × V) → Option V
  lookup key [] = none
  lookup key ((other, value) ∷ rest) = if other == key then some value else lookup key rest

  -- `m[key] = new`.
  unfoldable pub insert : ℕ → V → List (ℕ × V) → List (ℕ × V)
  insert key new [] = (key, new) ∷ []
  insert key new ((other, value) ∷ rest) =
      if other == key then (key, new) ∷ rest else (other, value) ∷ insert key new rest

  -- `delete(m, key)`.
  unfoldable pub erase : ℕ → List (ℕ × V) → List (ℕ × V)
  erase key [] = []
  erase key ((other, value) ∷ rest) =
      let others = erase key rest in if other == key then others else (other, value) ∷ others

  pub lookup-insert :
      (key asked : ℕ) (new : V) (entries : List (ℕ × V))
      → lookup asked (insert key new entries)
        ≡ (if key == asked then some new else lookup asked entries)
  unfolding lookup insert
  lookup-insert key asked new [] = refl
  lookup-insert key asked new ((other, value) ∷ rest) =
      ground (arith, lookup-insert key asked new rest)

  pub lookup-erase :
      (key asked : ℕ) (entries : List (ℕ × V))
      → lookup asked (erase key entries) ≡ (if key == asked then none else lookup asked entries)
  unfolding lookup erase
  lookup-erase key asked [] = ground arith
  lookup-erase key asked ((other, value) ∷ rest) = ground (arith, lookup-erase key asked rest)

  -- No key stands twice.
  abbrev pub IsDistinct : List (ℕ × V) → Type ℓ
  IsDistinct [] = Unit {ℓ}
  IsDistinct ((key, value) ∷ rest) = (lookup key rest ≡ none) × IsDistinct rest

  pub insert-IsDistinct :
      (key : ℕ) (new : V) (entries : List (ℕ × V))
      → IsDistinct entries
      → IsDistinct (insert key new entries)
  unfolding lookup insert
  insert-IsDistinct key new [] d = (refl, tt)
  insert-IsDistinct key new ((other, value) ∷ rest) (free, d) = elim (Bool-cases (other == key)) [
    | inl hit ↦
        let same : other ≡ key = ground arith in
        rw hit (ap (λ (k : ℕ). lookup k rest) (sym same) ∙ free, d)
    | inr miss ↦
        let apart : (key == other) ≡ false = ground arith in
        rw miss (lookup-insert key other new rest ∙ rw apart free, insert-IsDistinct key new rest d)
  ]

  pub erase-IsDistinct :
      (key : ℕ) (entries : List (ℕ × V)) → IsDistinct entries → IsDistinct (erase key entries)
  unfolding erase
  erase-IsDistinct key [] d = tt
  erase-IsDistinct key ((other, value) ∷ rest) (free, d) = elim (Bool-cases (other == key)) [
    | inl hit ↦ rw hit (erase-IsDistinct key rest d)
    | inr miss ↦
        rw miss (ground (arith, lookup-erase key other rest, free), erase-IsDistinct key rest d)
  ]
