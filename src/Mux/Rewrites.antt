-- ===== src/Mux/Rewrites.antt =====
-- mux_v4.go: the header of a reply once its operations have run.
use nfs4go.Common.{
  ℕ, ◌≡◌, sym, ap, ◌∙◌, subst, true, false, ◌&&◌, Bool-cases, inl, inr, List, ◌++◌, ◌==◌,
  if◌then◌else◌, Bool, Result, arith, ok, ◌>>=◌, ok-injective,
}
use nfs4go.Bufpool.{Buf, write, seek_write}
use nfs4go.Bufpool.Contents.{contents}
use nfs4go.Msg.Status.{nfs4_ok}
use nfs4go.Mux.State.{Request}
use nfs4go.Mux.Output.{write_header, write_all, rewrite_header_if_needed}
use nfs4go.Mux.Appends.{
  IsFresh, header_bytes, encode_all-header, length-header_bytes, write_front, write_front_lem,
}

-- The number of operations and the status that a header may keep.
kept : (n m s t : ℕ) → (s == t && n == m) ≡ true → (n ≡ m) × (s ≡ t)
kept n m s t h = (ground arith, ground arith)

again : Request → ℕ → ℕ → Buf → Result Buf
again req n s b = do out' ← write_header req n s (seek_write 0 b).1; ok (seek_write b.w out').1

again_lem :
    (req : Request) (n s : ℕ) (b : Buf)
    → again req n s b ≡ ok (write_front (header_bytes req n s) b)
unfolding again write_header write_all write_front
again_lem req n s b =
    ap (λ r. (r >>= λ bs. ok (write bs (seek_write 0 b).1)) >>= λ out'. ok (seek_write b.w out').1)
      (encode_all-header req n s)

-- For a reply that starts with the header of all the operations of the call and NFS4_OK, on a buffer
-- that nothing was read from: where the rewriting succeeds, the reply starts with the header of the
-- given count and status, and the bytes after the header are as before.
pub rewrite_header_lem :
    (req : Request) (n s : ℕ) (body : List ℕ) (b b' : Buf)
    → IsFresh b
    → contents b ≡ header_bytes req req.ops_count nfs4_ok ++ body
    → rewrite_header_if_needed req n s b ≡ ok b'
    → IsFresh b' × (contents b' ≡ header_bytes req n s ++ body)
unfolding rewrite_header_if_needed again
rewrite_header_lem req n s body b b' h e run =
    elim (Bool-cases (s == nfs4_ok && n == req.ops_count)) [
      | inl same ↦
          let (count, status) = kept n req.ops_count s nfs4_ok same in
          subst (λ out. IsFresh out × (contents out ≡ header_bytes req n s ++ body))
            (ok-injective (chosen true same)) (h, rw (count, status) e)
      | inr other ↦
          subst (λ out. IsFresh out × (contents out ≡ header_bytes req n s ++ body))
            (ok-injective (sym (again_lem req n s b) ∙ chosen false other))
            (write_front_lem (header_bytes req n s) (header_bytes req req.ops_count nfs4_ok) body b
              h e (length-header_bytes req n s req.ops_count nfs4_ok))
    ]
  where
    chosen :
        (t : Bool)
        → (s == nfs4_ok && n == req.ops_count) ≡ t
        → (if t then ok b else again req n s b) ≡ ok b'
    chosen t i = subst (λ t. (if t then ok b else again req n s b) ≡ ok b') i run

pub rewrite_header_returns :
    (req : Request) (n s : ℕ) (b : Buf) → (b' : Buf) × (rewrite_header_if_needed req n s b ≡ ok b')
unfolding rewrite_header_if_needed again
rewrite_header_returns req n s b = elim (Bool-cases (s == nfs4_ok && n == req.ops_count)) [
  | inl same ↦ (b, ap (λ t. if t then ok b else again req n s b) same)
  | inr other ↦ (
    write_front (header_bytes req n s) b,
    ap (λ t. if t then ok b else again req n s b) other ∙ again_lem req n s b,
  )
]
