-- ===== src/Common/Keyed.antt =====
-- A Go map with byte strings as keys.
use Prim.Native.Nat.{ℕ}
use mathlib.Core.Path.{◌≡◌, refl, sym, ap, ◌∙◌}
use mathlib.Core.Logic.{inl, inr}
use mathlib.Core.Bool.{true, false}
use mathlib.Core.Option.{Option, none, some}
use mathlib.Core.List.{List, [], ◌∷◌}
use native.Mathlib.Omega.{arith}
use nfs4go.Common.Tests.{if◌then◌else◌, list_eq, list_eq-eq, list_eq_sym, Bool-cases}

differs :
    (other key asked : List ℕ)
    → list_eq other key ≡ false
    → list_eq key asked ≡ true
    → list_eq other asked ≡ false
differs other key asked miss same = sym (ap (list_eq other) (list_eq-eq key asked same)) ∙ miss

module _ {ℓ} {V : Type ℓ} where
  -- `m[key]` with its `ok`.
  unfoldable pub lookup : List ℕ → List (List ℕ × V) → Option V
  lookup key [] = none
  lookup key ((other, value) ∷ rest) = if list_eq other key then some value else lookup key rest

  -- `m[key] = new`.
  unfoldable pub insert : List ℕ → V → List (List ℕ × V) → List (List ℕ × V)
  insert key new [] = (key, new) ∷ []
  insert key new ((other, value) ∷ rest) =
      if list_eq other key then (key, new) ∷ rest else (other, value) ∷ insert key new rest

  -- `delete(m, key)`.
  unfoldable pub erase : List ℕ → List (List ℕ × V) → List (List ℕ × V)
  erase key [] = []
  erase key ((other, value) ∷ rest) =
      let others = erase key rest in if list_eq other key then others else (other, value) ∷ others

  pub lookup-insert :
      (key asked : List ℕ) (new : V) (entries : List (List ℕ × V))
      → lookup asked (insert key new entries)
        ≡ (if list_eq key asked then some new else lookup asked entries)
  unfolding lookup insert
  lookup-insert key asked new [] = refl
  lookup-insert key asked new ((other, value) ∷ rest) = elim (Bool-cases (list_eq other key)) [
    | inl hit ↦ ground (
      arith,
      hit,
      ap (λ (k : List ℕ). list_eq k asked) (list_eq-eq other key hit),
      lookup-insert key asked new rest,
    )
    | inr miss ↦ ground (arith, miss, differs other key asked, lookup-insert key asked new rest)
  ]

  pub lookup-erase :
      (key asked : List ℕ) (entries : List (List ℕ × V))
      → lookup asked (erase key entries)
        ≡ (if list_eq key asked then none else lookup asked entries)
  unfolding lookup erase
  lookup-erase key asked [] = ground arith
  lookup-erase key asked ((other, value) ∷ rest) = elim (Bool-cases (list_eq other key)) [
    | inl hit ↦ ground (
      arith,
      hit,
      ap (λ (k : List ℕ). list_eq k asked) (list_eq-eq other key hit),
      lookup-erase key asked rest,
    )
    | inr miss ↦ ground (arith, miss, differs other key asked, lookup-erase key asked rest)
  ]

  -- No key stands twice.
  abbrev pub IsDistinct : List (List ℕ × V) → Type ℓ
  IsDistinct [] = Unit {ℓ}
  IsDistinct ((key, value) ∷ rest) = (lookup key rest ≡ none) × IsDistinct rest

  pub insert-IsDistinct :
      (key : List ℕ) (new : V) (entries : List (List ℕ × V))
      → IsDistinct entries
      → IsDistinct (insert key new entries)
  unfolding lookup insert
  insert-IsDistinct key new [] d = (refl, tt)
  insert-IsDistinct key new ((other, value) ∷ rest) (free, d) =
      elim (Bool-cases (list_eq other key)) [
        | inl hit ↦
            let same : other ≡ key = list_eq-eq other key hit in
            rw hit (ap (λ (k : List ℕ). lookup k rest) (sym same) ∙ free, d)
        | inr miss ↦ rw miss (
          lookup-insert key other new rest ∙ rw (list_eq_sym key other, miss) free,
          insert-IsDistinct key new rest d,
        )
      ]

  pub erase-IsDistinct :
      (key : List ℕ) (entries : List (List ℕ × V))
      → IsDistinct entries
      → IsDistinct (erase key entries)
  unfolding erase
  erase-IsDistinct key [] d = tt
  erase-IsDistinct key ((other, value) ∷ rest) (free, d) = elim (Bool-cases (list_eq other key)) [
    | inl hit ↦ rw hit (erase-IsDistinct key rest d)
    | inr miss ↦ rw miss (
      lookup-erase key other rest ∙ rw (list_eq_sym key other, miss) free,
      erase-IsDistinct key rest d,
    )
  ]
