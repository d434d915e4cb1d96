-- ===== src/Xdr/WordLaws.antt =====
-- What the basic types of xdr/ give back, whatever bytes follow.
use nfs4go.Common.{
  ℕ, zero, suc, ◌+◌, ◌%◌, ◌<◌, ◌≡◌, refl, sym, Bool, true, false, List, [], ◌∷◌, ◌++◌, append_assoc,
  arith, length, replicate, length-append, length-replicate, length-drop, length-take, take-append,
  drop-append, Result, ok, >>=-eq-ok, ok-injective, All,
}
use nfs4go.Xdr.Words.{
  pad, Read, read_full, put_uint32, big_endian, get_uint32, put_uint64, get_uint64, put_bool,
  get_bool, put_byte_array, get_byte_array, put_bytes, get_bytes, get_times, put_each, IsUint32,
  IsUint64,
}

-- The padding is less than four bytes and makes the size a multiple of four.
pub pad_lem : (n : ℕ) → (pad n < 4) × ((n + pad n) % 4 ≡ 0)
unfolding pad
pad_lem n = ground arith

pub read_full-append :
    (n : ℕ) (xs ys : List ℕ) → length xs ≡ n → read_full n (xs ++ ys) ≡ ok (xs, ys)
unfolding read_full
read_full-append zero [] ys h = refl
read_full-append zero (x ∷ xs) ys h = absurd (omega arith)
read_full-append (suc n) [] ys h = absurd (omega arith)
read_full-append (suc n) (x ∷ xs) ys h = ground (
  arith,
  length-append xs ys,
  take-append n xs ys (omega arith),
  drop-append n xs ys (omega arith),
)

pub read_full_takes :
    (n : ℕ) (bs : List ℕ) {b rest : List ℕ}
    → read_full n bs ≡ ok (b, rest)
    → (length b ≡ n) × (length rest + n ≡ length bs)
unfolding read_full
read_full_takes zero bs e = ground arith
read_full_takes (suc n) [] e = cc
read_full_takes (suc n) (x ∷ xs) e = ground (arith, length-take n xs, length-drop n xs)

pub get-put_uint32 :
    (v : ℕ) (rest : List ℕ) → IsUint32 v → get_uint32 (put_uint32 v ++ rest) ≡ ok (v, rest)
unfolding get_uint32 put_uint32 read_full big_endian
get-put_uint32 v rest h = ground arith

pub get-put_uint64 :
    (v : ℕ) (rest : List ℕ) → IsUint64 v → get_uint64 (put_uint64 v ++ rest) ≡ ok (v, rest)
unfolding get_uint64 put_uint64 put_uint32 read_full big_endian
get-put_uint64 v rest h = ground arith

pub get-put_bool : (v : Bool) (rest : List ℕ) → get_bool (put_bool v ++ rest) ≡ ok (v, rest)
unfolding get_bool put_bool
get-put_bool true rest = rw (get-put_uint32 1 rest (omega arith))
get-put_bool false rest = rw (get-put_uint32 0 rest (omega arith))

pub get-put_byte_array :
    (n : ℕ) (v rest : List ℕ)
    → length v ≡ n
    → get_byte_array n (put_byte_array v ++ rest) ≡ ok (v, rest)
unfolding get_byte_array put_byte_array
get-put_byte_array n v rest h = rw (
  append_assoc,
  read_full-append n v _ h,
  h,
  read_full-append (pad n) (replicate (pad n) 0) rest (length-replicate (pad n) 0),
)

pub get-put_bytes :
    (v rest : List ℕ) → IsUint32 (length v) → get_bytes (put_bytes v ++ rest) ≡ ok (v, rest)
unfolding get_bytes put_bytes
get-put_bytes v rest h = rw (
  append_assoc,
  get-put_uint32 (length v) _ h,
  read_full-append (length v + pad (length v)) (v ++ zeros) rest padded,
  take-append (length v) v zeros refl,
)
  where
    zeros : List ℕ
    zeros = replicate (pad (length v)) 0

    padded : length (v ++ zeros) ≡ length v + pad (length v)
    padded = omega (arith, length-append v zeros, length-replicate {A = ℕ} (pad (length v)) 0)

-- A counted loop reads back what a loop over a list wrote, if each element is read back.
pub get-put_each :
    {A : Type 0} (P : A → Type 0) (put : A → Result (List ℕ)) (get : Read A)
    (inv : (a : A) (b r : List ℕ) → P a → put a ≡ ok b → get (b ++ r) ≡ ok (a, r)) (as' : List A)
    (bs rest : List ℕ)
    → All P as'
    → put_each put as' ≡ ok bs
    → get_times (length as') get (bs ++ rest) ≡ ok (as', rest)
unfolding put_each get_times
get-put_each P put get inv [] bs rest h e = rw (sym (ok-injective e))
get-put_each P put get inv (a ∷ as') bs rest (ha, h) e =
    let (b, p, q) = >>=-eq-ok (put a) _ e in
    let (bs', p', q') = >>=-eq-ok (put_each put as') _ q in
    rw (
      sym (ok-injective q'),
      append_assoc,
      inv a b (bs' ++ rest) ha p,
      get-put_each P put get inv as' bs' rest h p',
    )
