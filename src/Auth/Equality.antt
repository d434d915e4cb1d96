-- ===== src/Auth/Equality.antt =====
-- What `Creds.Equal` tells about the two credentials.
use nfs4go.Common.{
  ℕ, ◌≡◌, sym, ap, ◌∙◌, ◌⊎◌, inl, inr, true, List, ◌∷◌, list_eq, list_eq-eq, list_eq_refl,
  list_eq_sym, arith, Bool-cases,
}
use nfs4go.Auth.{Creds, creds_equal}
use nfs4go.Auth.Groups.{sort, compact, contains, contains-compact-sort}

abbrev pub all_gids : Creds → List ℕ
all_gids c = c.gid ∷ c.additional_groups

-- Equality of credentials is reflexive and symmetric.
pub creds_equal_refl_sym :
    (c other : Creds) → (creds_equal c c ≡ true) × (creds_equal c other ≡ creds_equal other c)
unfolding creds_equal
creds_equal_refl_sym c other = (
  rw (list_eq_refl c.additional_groups) (ground arith),
  ground (
    arith,
    list_eq_sym c.additional_groups other.additional_groups,
    list_eq_sym (compact (sort (all_gids c))) (compact (sort (all_gids other))),
  ),
)

gids_of_compact :
    (xs ys : List ℕ)
    → list_eq (compact (sort xs)) (compact (sort ys)) ≡ true
    → (g : ℕ) → contains g xs ≡ contains g ys
gids_of_compact xs ys h g =
    sym (contains-compact-sort g xs)
    ∙ ap (contains g) (list_eq-eq _ _ h)
    ∙ contains-compact-sort g ys

-- Credentials that count as equal have the same user, and either the same list of additional groups
-- (the primary group may differ) or, counting the primary group in, the same set of groups.
pub creds_equal_sound :
    (c other : Creds)
    → creds_equal c other ≡ true
    → (c.uid ≡ other.uid)
      × ((c.additional_groups ≡ other.additional_groups)
          ⊎ ((g : ℕ) → contains g (all_gids c) ≡ contains g (all_gids other)))
unfolding creds_equal
creds_equal_sound c other h =
    elim (Bool-cases (list_eq c.additional_groups other.additional_groups)) [
      | inl e ↦ (ground arith, inl (list_eq-eq _ _ e))
      | inr e ↦ (ground arith, inr (gids_of_compact (all_gids c) (all_gids other) (ground arith)))
    ]
