-- ===== src/Auth/Groups.antt =====
-- `slices.Sort` and `slices.Compact` on group ids, and that they keep the set of ids.
use nfs4go.Common.{ℕ, ◌≡◌, refl, Bool, false, ◌||◌, List, [], ◌∷◌, arith, leb, ◌==◌, if◌then◌else◌}

insert : ℕ → List ℕ → List ℕ
insert a [] = a ∷ []
insert a (x ∷ xs) = if leb a x then a ∷ x ∷ xs else x ∷ insert a xs

unfoldable pub sort : List ℕ → List ℕ
unfolding insert
sort [] = []
sort (x ∷ xs) = insert x (sort xs)

-- Runs of equal elements become one.
unfoldable pub compact : List ℕ → List ℕ
compact [] = []
compact (x ∷ []) = x ∷ []
compact (x ∷ y ∷ xs) = let rest = compact (y ∷ xs) in if x == y then rest else x ∷ rest

pub contains : ℕ → List ℕ → Bool
contains a [] = false
contains a (x ∷ xs) = a == x || contains a xs

contains-insert : (a x : ℕ) (xs : List ℕ) → contains a (insert x xs) ≡ (a == x || contains a xs)
unfolding contains insert
contains-insert a x [] = refl
contains-insert a x (y ∷ xs) = ground (arith, contains-insert a x xs)

contains-sort : (a : ℕ) (xs : List ℕ) → contains a (sort xs) ≡ contains a xs
unfolding contains sort
contains-sort a [] = refl
contains-sort a (x ∷ xs) = rw (contains-insert a x (sort xs), contains-sort a xs)

contains-compact : (a : ℕ) (xs : List ℕ) → contains a (compact xs) ≡ contains a xs
unfolding contains compact
contains-compact a [] = refl
contains-compact a (x ∷ []) = refl
contains-compact a (x ∷ y ∷ xs) = ground (arith, contains-compact a (y ∷ xs))

pub contains-compact-sort : (a : ℕ) (xs : List ℕ) → contains a (compact (sort xs)) ≡ contains a xs
contains-compact-sort a xs = rw (contains-compact, contains-sort)
