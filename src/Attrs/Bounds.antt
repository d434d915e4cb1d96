-- ===== src/Attrs/Bounds.antt =====
-- bitmap4.go: when the words that `bitmap4Encode` makes have room for every key.
use Prim.Native.Nat.{bit_or}
use nfs4go.Common.{
  ℕ, zero, suc, ◌+◌, ◌*◌, ◌/◌, ◌%◌, ◌^◌, ◌<◌, ◌≤◌, ◌≡◌, refl, sym, ap, ◌∙◌, subst, true, false,
  List, [], ◌∷◌, ◌++◌, none, some, All, map, length, replicate, length-replicate, get_elem?, set,
  ltb, if◌then◌else◌, arith, ok, panic, ◌>>=◌,
}
use nfs4go.Attrs.Bitmap.{
  Bitmap, max_int, size_of, set_bit, set_bits, bitmap4_encode, decode_word, decode_from,
  bitmap4_decode,
}

-- Every key has its word.
unfoldable pub HasRoom : ℕ → Bitmap → Type 0
HasRoom n x = All (λ e. e.0 / 32 < n) x

length-set_word : (rs : List ℕ) (i w : ℕ) → length (set rs i w) ≡ length rs
length-set_word [] i w = refl
length-set_word (r ∷ rs) zero w = refl
length-set_word (r ∷ rs) (suc i) w = ap suc (length-set_word rs i w)

get_elem?_within : (rs : List ℕ) (i : ℕ) → i < length rs → (w : ℕ) × (get_elem? rs i ≡ some w)
get_elem?_within [] i h = absurd (omega arith)
get_elem?_within (r ∷ rs) zero h = (r, refl)
get_elem?_within (r ∷ rs) (suc i) h = get_elem?_within rs i (omega arith)

set_bit_lem :
    (i s : ℕ) (rs : List ℕ)
    → i < length rs
    → (rs' : List ℕ) × (set_bit i s rs ≡ ok rs') × (length rs' ≡ length rs)
unfolding set_bit
set_bit_lem i s rs h =
    let (w, found) = get_elem?_within rs i h in
    (set rs i (bit_or w s), rw (found, set_bit) refl, length-set_word rs i (bit_or w s))

set_bits_lem :
    (x : Bitmap) (rs : List ℕ)
    → HasRoom (length rs) x
    → (rs' : List ℕ) × (set_bits x rs ≡ ok rs') × (length rs' ≡ length rs)
unfolding set_bits HasRoom
set_bits_lem [] rs h = (rs, refl, refl)
set_bits_lem ((v, true) ∷ x) rs h =
    let (rs1, one, same) = set_bit_lem (v / 32) (2 ^ (v % 32)) rs h.0 in
    let (rs2, more, same2) = set_bits_lem x rs1 (subst (λ n. HasRoom n x) (sym same) h.1) in
    (rs2, rw one more, same2 ∙ same)
set_bits_lem ((v, false) ∷ x) rs h = set_bits_lem x rs h.1

max_int_above : (m : ℕ) (x : Bitmap) → (m ≤ max_int m x) × All (λ e. e.0 ≤ max_int m x) x
unfolding max_int
max_int_above m [] = (omega arith, tt)
max_int_above m ((v, on) ∷ x) =
    let (low, all) = max_int_above (if ltb m v then v else m) x in
    (ground arith, (ground arith, all))

room : (m n : ℕ) (x : Bitmap) → All (λ e. e.0 ≤ m) x → m / 32 < n → HasRoom n x
unfolding HasRoom
room m n [] h k = tt
room m n ((v, on) ∷ x) h k = (omega (arith, h.0), room m n x h.1 k)

unfoldable pub keys : Bitmap → List ℕ
keys x = map (λ e. e.0) x

max_int-keys : (m : ℕ) (x y : Bitmap) → keys x ≡ keys y → max_int m x ≡ max_int m y
unfolding max_int keys
max_int-keys m [] [] e = refl
max_int-keys m [] ((w, off) ∷ y) e = cc
max_int-keys m ((v, on) ∷ x) [] e = cc
max_int-keys m ((v, on) ∷ x) ((w, off) ∷ y) e =
    let head : v ≡ w = cc in
    let tail : keys x ≡ keys y = cc in rw head (max_int-keys (if ltb m w then w else m) x y tail)

below :
    (n base w m : ℕ) (x : Bitmap)
    → base + n ≤ m + 1
    → max_int m (decode_word base w n ++ x) ≡ max_int m x
unfolding max_int decode_word
below zero base w m x h = refl
below (suc n) base w m x h =
    ap (λ t. max_int (if t then base + n else m) (decode_word base w n ++ x)) low
    ∙ below n base w m x (omega arith)
  where
    low : ltb m (base + n) ≡ false
    low = ground arith

one_word :
    (n base w m : ℕ) (x : Bitmap)
    → m ≤ base + n
    → max_int m (decode_word base w (suc n) ++ x) ≡ max_int (base + n) x
unfolding max_int decode_word
one_word n base w m x h =
    ap (λ k. max_int k (decode_word base w n ++ x)) highest
    ∙ below n base w (base + n) x (omega arith)
  where
    highest : (if ltb m (base + n) then base + n else m) ≡ base + n
    highest = ground arith

-- The highest key that is decoded is that of the last bit.
all_words :
    (nums : List ℕ) (i w m : ℕ)
    → m ≤ 32 * i
    → max_int m (decode_from i (w ∷ nums)) ≡ 32 * (i + length nums) + 31
unfolding decode_from max_int
all_words [] i w m h = one_word 31 (32 * i) w m [] (omega arith) ∙ omega arith
all_words (v ∷ nums) i w m h =
    one_word 31 (32 * i) w m (decode_from (i + 1) (v ∷ nums)) (omega arith)
    ∙ all_words nums (i + 1) v (32 * i + 31) (omega arith)
    ∙ omega arith

size :
    (x : Bitmap) (nums : List ℕ)
    → keys x ≡ keys (bitmap4_decode nums)
    → size_of (max_int 0 x) ≡ length nums
unfolding size_of bitmap4_decode decode_from max_int
size x [] e = ap size_of (max_int-keys 0 x [] e)
size x (w ∷ nums) e =
    ap size_of (max_int-keys 0 x (decode_from 0 (w ∷ nums)) e ∙ all_words nums 0 w 0 (omega arith))
    ∙ ground arith

words : (x : Bitmap) (nums : List ℕ) → keys x ≡ keys (bitmap4_decode nums) → HasRoom (length nums) x
unfolding bitmap4_decode decode_from HasRoom keys
words [] nums e = tt
words ((v, on) ∷ x) [] e = cc
words ((v, on) ∷ x) (w ∷ nums) e =
    let top =
      max_int-keys 0 ((v, on) ∷ x) (decode_from 0 (w ∷ nums)) e
      ∙ all_words nums 0 w 0 (omega arith) in
    room (max_int 0 ((v, on) ∷ x)) (suc (length nums)) ((v, on) ∷ x)
      (max_int_above 0 ((v, on) ∷ x)).1 (omega (arith, top))

-- A map with the keys that some words decode to, with any of them on, is encoded without a panic, into
-- as many words.
pub bitmap4_encode-decode_keys :
    (x : Bitmap) (nums : List ℕ)
    → keys x ≡ keys (bitmap4_decode nums)
    → (rs : List ℕ) × (bitmap4_encode x ≡ ok rs) × (length rs ≡ length nums)
unfolding bitmap4_encode
bitmap4_encode-decode_keys x nums e =
    let zeros = replicate (size_of (max_int 0 x)) 0 in
    let count = length-replicate (size_of (max_int 0 x)) 0 ∙ size x nums e in
    let (rs, made, same) =
      set_bits_lem x zeros (subst (λ n. HasRoom n x) (sym count) (words x nums e)) in
    (rs, made, same ∙ count)

get_elem?_past : (rs : List ℕ) (i : ℕ) → length rs ≤ i → get_elem? rs i ≡ none
get_elem?_past [] i h = refl
get_elem?_past (r ∷ rs) zero h = absurd (omega arith)
get_elem?_past (r ∷ rs) (suc i) h = get_elem?_past rs i (omega arith)

set_bit_past : (i s : ℕ) (rs : List ℕ) → length rs ≤ i → set_bit i s rs ≡ panic
unfolding set_bit
set_bit_past i s rs h = rw (get_elem?_past rs i h, set_bit) refl

max_int_top : (m : ℕ) (y : Bitmap) → All (λ e. e.0 ≤ m) y → max_int m y ≡ m
unfolding max_int
max_int_top m [] h = refl
max_int_top m ((v, on) ∷ y) h = ap (λ k. max_int k y) same ∙ max_int_top m y h.1
  where
    same : (if ltb m v then v else m) ≡ m
    same = let below_m = h.0 in ground arith

-- Where the highest key is on and a multiple of 32, and comes first, encoding panics: the words are one
-- too few for it.
pub bitmap4_encode_panics :
    (k : ℕ) (y : Bitmap) → All (λ e. e.0 ≤ 32 * k) y → bitmap4_encode ((32 * k, true) ∷ y) ≡ panic
unfolding bitmap4_encode set_bits max_int size_of
bitmap4_encode_panics k y h =
    ap (λ m. set_bits ((32 * k, true) ∷ y) (replicate (size_of m) 0)) top
    ∙ ap (λ r. r >>= λ rs'. set_bits y rs')
        (set_bit_past (32 * k / 32) (2 ^ (32 * k % 32)) zeros short)
  where
    top : max_int (if ltb 0 (32 * k) then 32 * k else 0) y ≡ 32 * k
    top = ap (λ m. max_int m y) highest ∙ max_int_top (32 * k) y h
      where
        highest : (if ltb 0 (32 * k) then 32 * k else 0) ≡ 32 * k
        highest = ground arith

    zeros : List ℕ
    zeros = replicate (size_of (32 * k)) 0

    short : length zeros ≤ 32 * k / 32
    short = ground (arith, length-replicate {A = ℕ} (size_of (32 * k)) 0)
