-- ===== src/Attrs/Bitmap.antt =====
-- bitmap4.go: a set of attributes as words of 32 bits. The Go map is an association list.
use Prim.Native.Nat.{bit_or, bit_and}
use nfs4go.Common.{
  ℕ, zero, suc, ◌+◌, ◌*◌, ◌/◌, ◌%◌, ◌^◌, Bool, List, [], ◌∷◌, ◌++◌, none, some, replicate,
  get_elem?, set, ltb, ◌==◌, if◌then◌else◌, Result, ok, panic, ◌>>=◌,
}

abbrev pub Bitmap : Type 0
Bitmap = List (ℕ × Bool)

-- The highest key, of those that are on and those that are off.
unfoldable pub max_int : ℕ → Bitmap → ℕ
max_int m [] = m
max_int m ((v, on) ∷ x) = max_int (if ltb m v then v else m) x

unfoldable pub size_of : ℕ → ℕ
size_of m = if ltb 0 (m % 32) then m / 32 + 1 else m / 32

-- `rs[i] |= s`.
unfoldable pub set_bit : ℕ → ℕ → List ℕ → Result (List ℕ)
set_bit i s rs = elim (get_elem? rs i) [ none ↦ panic | some w ↦ ok (set rs i (bit_or w s)) ]

unfoldable pub set_bits : Bitmap → List ℕ → Result (List ℕ)
unfolding set_bit
set_bits [] rs = ok rs
set_bits ((v, on) ∷ x) rs = do
  rs' ← (if on then set_bit (v / 32) (2 ^ (v % 32)) rs else ok rs)
  set_bits x rs'

unfoldable pub bitmap4_encode : Bitmap → Result (List ℕ)
unfolding max_int size_of set_bits
bitmap4_encode x = set_bits x (replicate (size_of (max_int 0 x)) 0)

-- The bits of a word, from 31 down.
unfoldable pub decode_word : ℕ → ℕ → ℕ → Bitmap
decode_word base w zero = []
decode_word base w (suc j) = (base + j, bit_and (2 ^ j) w == 2 ^ j) ∷ decode_word base w j

unfoldable pub decode_from : ℕ → List ℕ → Bitmap
unfolding decode_word
decode_from i [] = []
decode_from i (w ∷ ws) = decode_word (32 * i) w 32 ++ decode_from (i + 1) ws

unfoldable pub bitmap4_decode : List ℕ → Bitmap
unfolding decode_from
bitmap4_decode nums = decode_from 0 nums
