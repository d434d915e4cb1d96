-- ===== src/Bufpool/Contents.antt =====
-- A buffer stands for the bytes between its two positions.
use Prim.Native.Nat.add
use nfs4go.Common.{
  ℕ, zero, suc, ◌+◌, ◌-◌, ◌≤◌, ◌<◌, ◌≡◌, refl, ap, ◌∙◌, true, false, List, [], ◌∷◌, ◌++◌, length,
  take, drop, replicate, length-replicate, length-take, length-drop, arith, ltb, leb, ok,
  Bool-cases, inl, inr,
}
use nfs4go.Bufpool.{
  Buf, copy_at, slice_of, grow, make_room, write, bytes, read, allocate, fill, commit, reset, copy,
}

abbrev pub contents : Buf → List ℕ
contents b = drop b.r (take b.w b.buf)

-- The read position is at most the write position, which is within the backing slice.
pub record IsValid (b : Buf) : Type 0 where
  pub ordered : b.r ≤ b.w
  pub within : b.w ≤ length b.buf

pub length-copy_at : (xs : List ℕ) (i : ℕ) (p : List ℕ) → length (copy_at xs i p) ≡ length xs
unfolding copy_at
length-copy_at [] i p = refl
length-copy_at (x ∷ xs) zero [] = refl
length-copy_at (x ∷ xs) zero (b ∷ bs) = ap suc (length-copy_at xs zero bs)
length-copy_at (x ∷ xs) (suc i) p = ap suc (length-copy_at xs i p)

take-copy_at :
    (n j : ℕ) (xs p : List ℕ)
    → n ≡ j + length p
    → n ≤ length xs
    → take n (copy_at xs j p) ≡ take j xs ++ p
unfolding copy_at
take-copy_at zero zero xs [] e h = refl
take-copy_at (suc n) zero xs [] e h = absurd (omega arith)
take-copy_at n zero [] (b ∷ p) e h = absurd (omega arith)
take-copy_at zero zero (x ∷ xs) (b ∷ p) e h = absurd (omega arith)
take-copy_at (suc n) zero (x ∷ xs) (b ∷ p) e h =
    ap (◌∷◌ b) (take-copy_at n zero xs p (omega arith) (omega arith))
take-copy_at zero (suc j) xs p e h = absurd (omega arith)
take-copy_at (suc n) (suc j) [] p e h = absurd (omega arith)
take-copy_at (suc n) (suc j) (x ∷ xs) p e h =
    ap (◌∷◌ x) (take-copy_at n j xs p (omega arith) (omega arith))

take-copy_at_front :
    (n : ℕ) (xs p : List ℕ)
    → n ≤ length p
    → length p ≤ length xs
    → take n (copy_at xs 0 p) ≡ take n p
unfolding copy_at
take-copy_at_front zero xs p h k = refl
take-copy_at_front (suc n) xs [] h k = absurd (omega arith)
take-copy_at_front (suc n) [] (b ∷ p) h k = absurd (omega arith)
take-copy_at_front (suc n) (x ∷ xs) (b ∷ p) h k =
    ap (◌∷◌ b) (take-copy_at_front n xs p (omega arith) (omega arith))

drop-append-le : (i : ℕ) (xs ys : List ℕ) → i ≤ length xs → drop i (xs ++ ys) ≡ drop i xs ++ ys
drop-append-le zero xs ys h = refl
drop-append-le (suc i) [] ys h = absurd (omega arith)
drop-append-le (suc i) (x ∷ xs) ys h = drop-append-le i xs ys (omega arith)

-- Making room moves no position, keeps the bytes up to the write position, and makes the room.
pub record HasRoom (n : ℕ) (b b' : Buf) : Type 0 where
  pub same_r : b'.r ≡ b.r
  pub same_w : b'.w ≡ b.w
  pub room : b.w + n ≤ length b'.buf
  pub kept : take b.w b'.buf ≡ take b.w b.buf

grown :
    (n : ℕ) (b : Buf)
    → b.w ≤ length b.buf
    → length b.buf < b.w + n
    → HasRoom n b (record b { buf = copy_at (replicate (b.w + n) 0) 0 b.buf })
grown n b v short = record {
  same_r = refl;
  same_w = refl;
  room = omega (arith, length-copy_at zeros 0 b.buf, length-replicate {A = ℕ} (b.w + n) 0);
  kept = take-copy_at_front b.w zeros b.buf v (omega (arith, length-replicate {A = ℕ} (b.w + n) 0));
}
  where
    zeros : List ℕ
    zeros = replicate (b.w + n) 0

pub make_room_lem : (n : ℕ) (b : Buf) → IsValid b → HasRoom n b (make_room n b)
unfolding make_room grow
make_room_lem n b v = elim (Bool-cases (ltb (length b.buf) (b.w + n))) [
  | inl short ↦ rw (short, not_enough short) (grown n b v.within (ground arith))
  | inr fits ↦ rw fits (record { same_r = refl; same_w = refl; room = ground arith; kept = refl })
]
  where
    not_enough : ltb (length b.buf) (b.w + n) ≡ true → leb (b.w + n) (length b.buf) ≡ false
    not_enough h = ground arith

filled :
    (p : List ℕ) (b b' : Buf)
    → IsValid b
    → HasRoom (length p) b b'
    → (drop b'.r (take (b'.w + length p) (copy_at b'.buf b'.w p)) ≡ contents b ++ p)
      × (b'.w + length p ≤ length (copy_at b'.buf b'.w p))
filled p b b' v h = (
  rw (
    h.same_r,
    h.same_w,
    take-copy_at (b.w + length p) b.w b'.buf p refl h.room,
    h.kept,
    drop-append-le b.r (take b.w b.buf) p
        (omega (arith, length-take b.w b.buf, v.ordered, v.within)),
  ),
  omega (arith, length-copy_at b'.buf b'.w p, h.room, h.same_w),
)

-- Writing to a valid buffer appends to its contents, however small its slice is, and keeps it valid.
pub contents-write :
    (p : List ℕ) (b : Buf)
    → IsValid b
    → IsValid (write p b) × (contents (write p b) ≡ contents b ++ p) × ((write p b).r ≡ b.r)
unfolding write
contents-write p b v =
    let h = make_room_lem (length p) b v in
    let (e, within) = filled p b (make_room (length p) b) v h in
    (
      record { ordered = omega (arith, h.same_r, h.same_w, v.ordered); within = within },
      e,
      h.same_r,
    )

pub bytes_lem : (b : Buf) → IsValid b → bytes b ≡ ok (contents b)
unfolding bytes slice_of
bytes_lem b v = rw (ordered, within)
  where
    ordered : ltb b.w b.r ≡ false
    ordered = let h = v.ordered in ground arith

    within : ltb (length b.buf) b.w ≡ false
    within = let h = v.within in ground arith

drop_more : (i n : ℕ) (xs : List ℕ) → drop (i + n) xs ≡ drop n (drop i xs)
drop_more zero n xs = rw (add.zero n)
drop_more (suc i) zero [] = rw (add.suc i zero)
drop_more (suc i) (suc n) [] = rw (add.suc i (suc n))
drop_more (suc i) n (x ∷ xs) = rw (add.suc i n) (drop_more i n xs)

drop_taken : (n : ℕ) (xs : List ℕ) → drop (length (take n xs)) xs ≡ drop n xs
drop_taken zero xs = refl
drop_taken (suc n) [] = refl
drop_taken (suc n) (x ∷ xs) = drop_taken n xs

-- Reading takes bytes off the front of the contents, at most the size of the caller's slice.
pub contents-read :
    (n : ℕ) (b : Buf)
    → IsValid b
    → (b' : Buf) × (read n b ≡ ok (take n (contents b), b'))
      × IsValid b'
      × (contents b' ≡ drop n (contents b))
unfolding read
contents-read n b v = (
  record b { r = b.r + length (take n (contents b)) },
  rw (bytes_lem b v),
  record { ordered = omega (arith, sizes); within = v.within },
  drop_more b.r (length (take n (contents b))) (take b.w b.buf) ∙ drop_taken n (contents b),
)
  where
    sizes : (length (take n (contents b)) ≤ length (contents b)) × (length (contents b) ≡ b.w - b.r)
    sizes = omega (
      arith,
      length-take n (contents b),
      length-drop b.r (take b.w b.buf),
      length-take b.w b.buf,
      v.within,
    )

length-contents : (b : Buf) → IsValid b → length (contents b) ≡ b.w - b.r
length-contents b v =
    omega (arith, length-drop b.r (take b.w b.buf), length-take b.w b.buf, v.within)

-- Copying between valid buffers appends the contents of the one to those of the other, and leaves
-- the source as it is.
pub contents-copy :
    (b other : Buf)
    → IsValid b
    → IsValid other
    → (other' : Buf) × (copy b other ≡ ok other')
      × IsValid other'
      × (contents other' ≡ contents other ++ contents b)
      × (other'.r ≡ other.r)
unfolding copy commit fill allocate
contents-copy b other v u =
    let h = make_room_lem (b.w - b.r) other u in
    let h' : HasRoom (length (contents b)) other (make_room (b.w - b.r) other) = record {
      same_r = h.same_r;
      same_w = h.same_w;
      room = omega (arith, h.room, length-contents b v);
      kept = h.kept;
    } in
    let (e, within) = filled (contents b) other (make_room (b.w - b.r) other) u h' in
    (
      commit (length (contents b)) (fill (contents b) (allocate (b.w - b.r) other)),
      rw (bytes_lem b v),
      record { ordered = omega (arith, h.same_r, h.same_w, u.ordered); within = within },
      e,
      h.same_r,
    )

pub reset_lem : (b : Buf) → IsValid (reset b) × (contents (reset b) ≡ [])
unfolding reset
reset_lem b = (record { ordered = omega arith; within = omega arith }, refl)
