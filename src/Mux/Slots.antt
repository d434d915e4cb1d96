-- ===== src/Mux/Slots.antt =====
-- clients/client.go: a slot that was written through its pointer is the one that `GetSlot` finds.
use nfs4go.Common.{
  ℕ, zero, suc, none, sym, ◌<◌, ◌≡◌, refl, ap, ◌∙◌, subst, Bool-cases, Option-cases, inl, inr, List,
  [], ◌∷◌, some, length, set, get_elem?, leb, ==_refl, arith, ok, ok-injective,
}
use nfs4go.Common.Assoc.{lookup, insert, lookup-insert}
use nfs4go.Clients.Client.{
  Client, Slot, get_slot, slot_of, client_id_from_session_id, cache_id_from_session_id,
}
use nfs4go.Clients.Table.{Clients}
use nfs4go.Mux.Run.{with_slot, put_slot}

length-set : {A : Type 0} (xs : List A) (i : ℕ) (new : A) → length (set xs i new) ≡ length xs
length-set [] i new = refl
length-set (x ∷ xs) zero new = refl
length-set (x ∷ xs) (suc i) new = ap suc (length-set xs i new)

get_elem?-set :
    {A : Type 0} (xs : List A) (i : ℕ) (new : A)
    → i < length xs
    → get_elem? (set xs i new) i ≡ some new
get_elem?-set [] i new h = absurd (omega arith)
get_elem?-set (x ∷ xs) zero new h = refl
get_elem?-set (x ∷ xs) (suc i) new h = get_elem?-set xs i new (omega arith)

slot_of-set :
    (slots : List Slot) (i : ℕ) (new old : Slot)
    → slot_of (some slots) i ≡ some old
    → slot_of (some (set slots i new)) i ≡ some new
unfolding slot_of
slot_of-set slots i new old e = elim (Bool-cases (leb (length slots) i)) [
  | inl past ↦ absurd (ground arith)
  | inr inside ↦ rw (length-set slots i new, inside) (get_elem?-set slots i new (ground arith))
]

lookup-insert_same :
    {V : Type 0} (key : ℕ) (new : V) (entries : List (ℕ × V))
    → lookup key (insert key new entries) ≡ some new
lookup-insert_same key new entries = lookup-insert key key new entries ∙ rw (==_refl key)

get_slot-with_slot :
    (session_id : List ℕ) (i : ℕ) (new old : Slot) (c : Client)
    → get_slot session_id i c ≡ some old
    → get_slot session_id i (with_slot session_id i new c) ≡ some new
unfolding get_slot with_slot slot_of
get_slot-with_slot session_id i new old c e =
    elim (Option-cases (lookup (cache_id_from_session_id session_id) c.sessions)) [
      | inl gone ↦ absurd (ground arith)
      | inr (slots, found) ↦
          rw (found, with_slot)
            (ap (λ s. slot_of s i) (lookup-insert_same key (set slots i new) c.sessions)
              ∙ slot_of-set slots i new old (subst (λ s. slot_of s i ≡ some old) found e))
    ]
  where
    key : ℕ
    key = cache_id_from_session_id session_id

-- The table has this slot for a session.
pub record Keeps (session_id : List ℕ) (slot_id : ℕ) (slot : Slot) (cs : Clients) : Type 0 where
  pub client : Client
  pub found : lookup (client_id_from_session_id session_id) cs ≡ some client
  pub slot_found : get_slot session_id slot_id client ≡ some slot

pub put_slot-Keeps :
    (session_id : List ℕ) (slot_id : ℕ) (slot : Slot) (cs cs' : Clients)
    → put_slot session_id slot_id slot cs ≡ ok cs'
    → (d : Client) → lookup (client_id_from_session_id session_id) cs' ≡ some d
    → Keeps session_id slot_id slot cs'
unfolding put_slot
put_slot-Keeps session_id slot_id slot cs cs' e d still =
    elim (Option-cases (lookup (client_id_from_session_id session_id) cs)) [
      | inl gone ↦ absurd (no_client gone)
      | inr (c, found) ↦ elim (Option-cases (get_slot session_id slot_id c)) [
        | inl gone ↦ absurd (ground arith)
        | inr (old, slot_found) ↦
            let e' : ok (
                  insert (client_id_from_session_id session_id)
                    (with_slot session_id slot_id slot c) cs)
                ≡ ok cs' =
              ground arith in
            subst (Keeps session_id slot_id slot) (ok-injective e') (record {
              client = with_slot session_id slot_id slot c;
              found = lookup-insert_same (client_id_from_session_id session_id) _ cs;
              slot_found = get_slot-with_slot session_id slot_id slot old c slot_found;
            })
      ]
    ]
  where
    no_client : lookup (client_id_from_session_id session_id) cs ≡ none → ⊥
    no_client gone =
        let same : ok cs ≡ ok cs' = rw (put_slot, gone) at e in
        let both : none ≡ some d =
          sym gone
          ∙ ap (lookup (client_id_from_session_id session_id)) (ok-injective same)
          ∙ still in
        cc
