-- ===== src/Mux/Appends.antt =====
-- What the code of mux_v4.go writes into the buffer of the reply.
use nfs4go.Common.{
  ℕ, zero, suc, ◌+◌, ◌≤◌, ◌≡◌, refl, sym, ap, ◌∙◌, subst, false, List, [], ◌∷◌, ◌++◌, append_assoc,
  length, take, drop, length-append, length-take, ok-injective, drop-append, ltb, arith, ok, ◌>>=◌,
}
use nfs4go.Bufpool.{Buf, copy_at, write, make_room, seek_write}
use nfs4go.Bufpool.Contents.{IsValid, contents, contents-write, length-copy_at}
use nfs4go.Xdr.Words.{put_uint32, put_bytes}
use nfs4go.Xdr.Codec.{encode_all}
use nfs4go.Mux.State.{Request}
use nfs4go.Mux.Output.{header, header_fields, write_all, write_header}

-- Nothing of the buffer was read.
pub record IsFresh (b : Buf) : Type 0 where
  pub valid : IsValid b
  pub unread : b.r ≡ 0

pub record Appends (bytes : List ℕ) (b b' : Buf) : Type 0 where
  pub fresh : IsFresh b'
  pub appended : contents b' ≡ contents b ++ bytes

pub write-Appends : (p : List ℕ) (b : Buf) → IsFresh b → Appends p b (write p b)
write-Appends p b h =
    let (v, e, same_r) = contents-write p b h.valid in
    record { fresh = record { valid = v; unread = same_r ∙ h.unread }; appended = e }

pub Appends-trans :
    (p q : List ℕ) (a b c : Buf) → Appends p a b → Appends q b c → Appends (p ++ q) a c
Appends-trans p q a b c x y = record {
  fresh = y.fresh;
  appended = y.appended ∙ ap (λ t. t ++ q) x.appended ∙ append_assoc (contents a) p q;
}

-- The bytes of a header.
unfoldable pub header_bytes : Request → ℕ → ℕ → List ℕ
header_bytes req ops_count last_status =
    (put_uint32 req.auth_resp.0 ++ (put_bytes req.auth_resp.1.0 ++ []))
    ++ (put_uint32 0
        ++ (put_uint32 last_status ++ (put_bytes req.tag ++ (put_uint32 ops_count ++ []))))

pub encode_all-header :
    (req : Request) (n s : ℕ)
    → encode_all header_fields (header req n s) ≡ ok (header_bytes req n s)
unfolding encode_all header_bytes
encode_all-header req n s = refl

length-tail :
    (bs : List ℕ) (n m : ℕ)
    → length (bs ++ (put_uint32 n ++ [])) ≡ length (bs ++ (put_uint32 m ++ []))
unfolding put_uint32
length-tail bs n m =
    omega (arith, length-append bs (put_uint32 n ++ []), length-append bs (put_uint32 m ++ []))

length-append_right :
    (xs ys zs : List ℕ) → length ys ≡ length zs → length (xs ++ ys) ≡ length (xs ++ zs)
length-append_right xs ys zs h = omega (arith, length-append xs ys, length-append xs zs)

-- Every header of a call has the same size.
pub length-header_bytes :
    (req : Request) (n s m t : ℕ) → length (header_bytes req n s) ≡ length (header_bytes req m t)
unfolding header_bytes put_uint32
length-header_bytes req n s m t =
    length-append_right (put_uint32 req.auth_resp.0 ++ (put_bytes req.auth_resp.1.0 ++ [])) _ _
      (omega (arith, length-tail (put_bytes req.tag) n m))

-- What a write at the front of a slice leaves.
take-overwrite :
    (w : ℕ) (xs p : List ℕ)
    → length p ≤ w
    → w ≤ length xs
    → take w (copy_at xs 0 p) ≡ p ++ drop (length p) (take w xs)
unfolding copy_at
take-overwrite zero xs [] h k = refl
take-overwrite zero xs (b ∷ p) h k = absurd (omega arith)
take-overwrite (suc w) [] p h k = absurd (omega arith)
take-overwrite (suc w) (x ∷ xs) [] h k = refl
take-overwrite (suc w) (x ∷ xs) (b ∷ p) h k =
    ap (◌∷◌ b) (take-overwrite w xs p (omega arith) (omega arith))

pub write_header-Appends :
    (req : Request) (n s : ℕ) (b b' : Buf)
    → IsFresh b
    → write_header req n s b ≡ ok b'
    → Appends (header_bytes req n s) b b'
unfolding write_header write_all
write_header-Appends req n s b b' h e =
    subst (Appends (header_bytes req n s) b)
      (ok-injective (sym (ap (λ r. r >>= λ bs. ok (write bs b)) (encode_all-header req n s)) ∙ e))
      (write-Appends (header_bytes req n s) b h)

-- The slice up to the write position, where nothing was read.
contents_unread : (b : Buf) → IsFresh b → contents b ≡ take b.w b.buf
contents_unread b h = rw h.unread refl

-- Bytes written at the front, and the write position put back.
unfoldable pub write_front : (p : List ℕ) (b : Buf) → Buf
unfolding seek_write write
write_front p b = (seek_write b.w (write p (seek_write 0 b).1)).1

write_front_in_place :
    (p : List ℕ) (b : Buf)
    → length p ≤ length b.buf
    → write_front p b ≡ record b { buf = copy_at b.buf 0 p }
unfolding write_front seek_write write make_room
write_front_in_place p b h = rw enough refl
  where
    enough : ltb (length b.buf) (0 + length p) ≡ false
    enough = ground arith

short :
    (p old body : List ℕ) (b : Buf)
    → IsFresh b
    → contents b ≡ old ++ body
    → length p ≡ length old
    → length p ≤ b.w
short p old body b h e k = omega (
  arith,
  ap length (sym (contents_unread b h) ∙ e),
  length-append old body,
  length-take b.w b.buf,
)

overwritten :
    (p old body : List ℕ) (b : Buf)
    → IsFresh b
    → contents b ≡ old ++ body
    → length p ≡ length old
    → take b.w (copy_at b.buf 0 p) ≡ p ++ body
overwritten p old body b h e k = rw (
  take-overwrite b.w b.buf p (short p old body b h e k) h.valid.within,
  sym (contents_unread b h),
  e,
  drop-append (length p) old body (sym k),
)

pub write_front_lem :
    (p old body : List ℕ) (b : Buf)
    → IsFresh b
    → contents b ≡ old ++ body
    → length p ≡ length old
    → IsFresh (write_front p b) × (contents (write_front p b) ≡ p ++ body)
write_front_lem p old body b h e k =
    rw (write_front_in_place p b (omega (arith, short p old body b h e k, h.valid.within))) (
      record {
        valid = record {
          ordered = h.valid.ordered;
          within = omega (arith, length-copy_at b.buf 0 p, h.valid.within);
        };
        unread = h.unread;
      },
      rw h.unread (overwritten p old body b h e k),
    )
