-- ===== src/Xdr/Words.antt =====
-- xdr/pad.go, and the basic types of xdr/decoder.go and xdr/encoder.go. `binary.BigEndian` and
-- `io.ReadFull` are written out.
use nfs4go.Common.{
  ℕ, zero, suc, ◌+◌, ◌-◌, ◌*◌, ◌/◌, ◌%◌, ◌^◌, ◌<◌, Bool, true, false, List, [], ◌∷◌, ◌++◌, length,
  take, drop, replicate, leb, ◌==◌, if◌then◌else◌, Result, ok, err, eof, unexpected_eof, ◌>>=◌,
}

-- The bytes that fill `size` up to a multiple of four.
unfoldable pub pad : ℕ → ℕ
pad size = if size % 4 == 0 then 0 else 4 - size % 4

abbrev pub Read : Type 0 → Type 0
Read A = List ℕ → Result (A × List ℕ)

-- `io.ReadFull` of n bytes: an empty reader gives EOF, a short one an unexpected EOF.
unfoldable pub read_full : ℕ → Read (List ℕ)
read_full zero bs = ok ([], bs)
read_full (suc n) [] = err eof
read_full (suc n) (b ∷ bs) =
    if leb (suc n) (length (b ∷ bs))
    then ok (take (suc n) (b ∷ bs), drop (suc n) (b ∷ bs))
    else err unexpected_eof

-- `binary.BigEndian.PutUint32` and `Uint32`; the argument of an encoder is cut to the width.
unfoldable pub put_uint32 : ℕ → List ℕ
put_uint32 v = (v / 2 ^ 24 % 256) ∷ (v / 2 ^ 16 % 256) ∷ (v / 2 ^ 8 % 256) ∷ (v % 256) ∷ []

unfoldable pub big_endian : ℕ → List ℕ → ℕ
big_endian acc [] = acc
big_endian acc (b ∷ bs) = big_endian (acc * 256 + b) bs

unfoldable pub get_uint32 : Read ℕ
get_uint32 bs = do (b, rest) ← read_full 4 bs; ok (big_endian 0 b, rest)

unfoldable pub put_uint64 : ℕ → List ℕ
put_uint64 v = put_uint32 (v / 2 ^ 32) ++ put_uint32 v

unfoldable pub get_uint64 : Read ℕ
get_uint64 bs = do (b, rest) ← read_full 8 bs; ok (big_endian 0 b, rest)

unfoldable pub put_bool : Bool → List ℕ
put_bool v = put_uint32 (if v then 1 else 0)

-- Any number but 0 is read as true.
unfoldable pub get_bool : Read Bool
get_bool bs = do (b, rest) ← get_uint32 bs; ok ((if b == 0 then false else true), rest)

-- `ByteArray`: the length is not sent, the padding is.
unfoldable pub put_byte_array : List ℕ → List ℕ
put_byte_array v = v ++ replicate (pad (length v)) 0

-- The padding is read by a second `io.ReadFull`, where there is any.
unfoldable pub get_byte_array : ℕ → Read (List ℕ)
get_byte_array n bs = do
  (b, rest) ← read_full n bs
  (_, rest') ← read_full (pad n) rest
  ok (b, rest')

-- `Bytes` and `String`: the length, cut to 32 bits, the bytes and the padding.
unfoldable pub put_bytes : List ℕ → List ℕ
put_bytes v = put_uint32 (length v) ++ (v ++ replicate (pad (length v)) 0)

-- Here the bytes and the padding are read at once.
unfoldable pub get_bytes : Read (List ℕ)
get_bytes bs = do
  (n, rest) ← get_uint32 bs
  (b, rest') ← read_full (n + pad n) rest
  ok (take n b, rest')

-- `for i := range n`: the same reader n times.
unfoldable pub get_times : {A : Type 0} → ℕ → Read A → Read (List A)
get_times zero get bs = ok ([], bs)
get_times (suc n) get bs = do
  (a, rest) ← get bs
  (as', rest') ← get_times n get rest
  ok (a ∷ as', rest')

-- The elements one after the other.
unfoldable pub put_each : {A : Type 0} → (A → Result (List ℕ)) → List A → Result (List ℕ)
put_each put [] = ok []
put_each put (a ∷ rest) = do b ← put a; bs ← put_each put rest; ok (b ++ bs)

abbrev pub IsUint32 : ℕ → Type 0
IsUint32 v = v < 2 ^ 32

abbrev pub IsUint64 : ℕ → Type 0
IsUint64 v = v < 2 ^ 64
