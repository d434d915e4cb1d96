-- ===== src/Clients/Handshake.antt =====
-- The two ways in which a client registers: SETCLIENTID with SETCLIENTID_CONFIRM, and EXCHANGE_ID with
-- CREATE_SESSION.
use nfs4go.Common.{
  ℕ, ◌+◌, ◌%◌, ◌^◌, ◌≡◌, refl, subst, ◌∙◌, true, false, List, [], ◌∷◌, some, arith, ==_refl,
  list_eq, list_eq-eq, Option-cases, Bool-cases, inl, inr, ok, >>=-eq-ok, ok-injective,
}
use nfs4go.Common.Assoc.{lookup, lookup-insert}
use nfs4go.Auth.{Creds, creds_equal}
use nfs4go.Auth.Equality.{creds_equal_refl_sym}
use nfs4go.Clients.Client.{Client, fresh_key, draw}
use nfs4go.Clients.Table.{
  Clients, Added, add, add_new, update_same, find_same, in_use_by_other, stored_as,
}
use nfs4go.Clients.Invariant.{IsValid}

-- The stored client answers to the name, the verifier and the credentials of the caller, and has the
-- numbers that `Add` returned.
pub record IsStored (client : Client) (a : Added) (c : Client) : Type 0 where
  pub found : lookup a.id a.clients ≡ some c
  pub same_name : c.name ≡ client.name
  pub same_verifier : c.verifier ≡ client.verifier
  pub same_creds : creds_equal c.creds client.creds ≡ true
  pub same_value : c.confirm_value ≡ a.confirm_value
  pub same_seq : c.seq_id ≡ a.seq_id

-- A client that `find_same` returns, where no client is in use by others, is one of the caller.
find_same_lem :
    (name : List ℕ) (verifier : ℕ) (creds : Creds) (cs : Clients) (id : ℕ) (c : Client)
    → in_use_by_other name creds cs ≡ false
    → find_same name verifier cs ≡ some (id, c)
    → (list_eq c.name name ≡ true) × (c.verifier ≡ verifier) × (creds_equal c.creds creds ≡ true)
unfolding find_same in_use_by_other
find_same_lem name verifier creds [] id c f e = cc
find_same_lem name verifier creds ((j, d) ∷ cs) id c f e =
    ground (arith, find_same_lem name verifier creds cs id c)

pub add-IsStored :
    (now : ℕ) (draws : List ℕ) (client : Client) (cs : Clients) (a : Added)
    → IsValid cs
    → add now draws client cs ≡ ok a
    → (c : Client) × IsStored client a c
unfolding add add_new update_same
add-IsStored now draws client cs a v e =
    elim (Bool-cases (in_use_by_other client.name client.creds cs)) [
      | inl busy ↦ absurd (ground arith)
      | inr free ↦ elim (Option-cases (find_same client.name client.verifier cs)) [
        | inl missing ↦
            let e' : add_new now draws client cs ≡ ok a = ground arith in
            let ((j, draws'), p, q) = >>=-eq-ok (fresh_key cs draws) _ e' in
            let ((value, draws''), p', q') = >>=-eq-ok (draw draws') _ q in
            subst (λ (x : Added). (c : Client) × IsStored client x c) (ok-injective q')
              (
                stored_as now j value client,
                record {
                  found = lookup-insert j j _ _ ∙ rw (==_refl j);
                  same_name = refl;
                  same_verifier = refl;
                  same_creds = (creds_equal_refl_sym client.creds client.creds).0;
                  same_value = refl;
                  same_seq = refl;
                },
              )
        | inr ((j, stored), found) ↦
            let e' : update_same now draws j stored cs ≡ ok a = ground arith in
            let ((value, draws'), p, q) = >>=-eq-ok (draw draws) _ e' in
            let (n, ver, cr) =
              find_same_lem client.name client.verifier client.creds cs j stored free found in
            subst (λ (x : Added). (c : Client) × IsStored client x c) (ok-injective q)
              (
                record stored {
                  confirm_value = value;
                  seq_id = (stored.seq_id + 1) % 2 ^ 32;
                  last_seen = now;
                },
                record {
                  found = lookup-insert j j _ _ ∙ rw (==_refl j);
                  same_name = list_eq-eq _ _ n;
                  same_verifier = ver;
                  same_creds = cr;
                  same_value = refl;
                  same_seq = refl;
                },
              )
      ]
    ]
