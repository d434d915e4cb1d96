-- ===== src/Xdr/Writes.antt =====
-- Encoding a value that the wire can carry succeeds, and fills whole words of four bytes.
use nfs4go.Common.{
  ℕ, zero, suc, ◌%◌, ◌≡◌, refl, Bool, true, false, List, [], ◌∷◌, ◌++◌, Option, none, some, arith,
  length, length-append, length-replicate, replicate, All, Result, ok,
}
use nfs4go.Xdr.Words.{
  put_uint32, put_uint64, put_bool, put_byte_array, put_bytes, put_each, IsUint32, pad,
}
use nfs4go.Xdr.WordLaws.{pad_lem}
use nfs4go.Xdr.Layout.{
  Layout, Fields, uint32, uint64, boolean, opaque, text, bytes16, uint32s, triple, strings, struct,
  union, chain, pointer, slice, end, field, Val, Vals, put_counted, put_pointer, put_chain,
}
use nfs4go.Xdr.Codec.{encode, encode_all, encode_arm, decode, put_word, put_text}
use nfs4go.Xdr.RoundTrip.{Fits, FitsAll, FitsArm, SizedAll, OptionAll, IsShort, decode-encode}

abbrev pub IsAligned : List ℕ → Type 0
IsAligned bs = length bs % 4 ≡ 0

abbrev pub Writes : Result (List ℕ) → Type 0
Writes r = (bs : List ℕ) × (r ≡ ok bs) × IsAligned bs

IsAligned-append : (a b : List ℕ) → IsAligned a → IsAligned b → IsAligned (a ++ b)
IsAligned-append a b ha hb = omega (arith, length-append a b)

put_uint32-IsAligned : (v : ℕ) → IsAligned (put_uint32 v)
unfolding put_uint32
put_uint32-IsAligned v = refl

put_bool-IsAligned : (v : Bool) → IsAligned (put_bool v)
unfolding put_bool
put_bool-IsAligned v = put_uint32-IsAligned _

padded-IsAligned : (v : List ℕ) → IsAligned (v ++ replicate (pad (length v)) 0)
padded-IsAligned v = omega (
  arith,
  length-append v (replicate (pad (length v)) 0),
  length-replicate {A = ℕ} (pad (length v)) 0,
  pad_lem (length v),
)

put_bytes-IsAligned : (v : List ℕ) → IsAligned (put_bytes v)
unfolding put_bytes
put_bytes-IsAligned v = IsAligned-append _ _ (put_uint32-IsAligned (length v)) (padded-IsAligned v)

module _ {A : Type 0} (P : A → Type 0) (put : A → Result (List ℕ))
    (writes : (a : A) → P a → Writes (put a)) where
  put_each-Writes : (as' : List A) → All P as' → Writes (put_each put as')
  unfolding put_each
  put_each-Writes [] h = ([], refl, refl)
  put_each-Writes (a ∷ as') (ha, h) =
      let (b, e, x) = writes a ha in
      let (bs, e', x') = put_each-Writes as' h in (b ++ bs, rw (e, e'), IsAligned-append b bs x x')

  put_counted-Writes : (as' : List A) → SizedAll P as' → Writes (put_counted put as')
  unfolding put_counted
  put_counted-Writes as' (size, h) =
      let (bs, e, x) = put_each-Writes as' h in
      (put_uint32 (length as') ++ bs, rw e, IsAligned-append _ bs (put_uint32-IsAligned _) x)

  put_pointer-Writes : (v : Option A) → OptionAll P v → Writes (put_pointer put v)
  unfolding put_pointer
  put_pointer-Writes none h = (put_bool false, refl, put_bool-IsAligned false)
  put_pointer-Writes (some a) h =
      let (bs, e, x) = writes a h in
      (put_bool true ++ bs, rw e, IsAligned-append _ bs (put_bool-IsAligned true) x)

  put_chain-Writes : (v : List A) → All P v → Writes (put_chain put v)
  unfolding put_chain
  put_chain-Writes [] h = (put_bool false, refl, put_bool-IsAligned false)
  put_chain-Writes (a ∷ as') (ha, h) =
      let (b, e, x) = writes a ha in
      let (bs, e', x') = put_chain-Writes as' h in
      (
        put_bool true ++ (b ++ bs),
        rw (e, e'),
        IsAligned-append _ (b ++ bs) (put_bool-IsAligned true) (IsAligned-append b bs x x'),
      )

word-Writes : (v : ℕ) → IsUint32 v → Writes (put_word v)
word-Writes v h = (put_uint32 v, refl, put_uint32-IsAligned v)

text-Writes : (v : List ℕ) → IsShort v → Writes (put_text v)
text-Writes v h = (put_bytes v, refl, put_bytes-IsAligned v)

mutual
  unfolding encode put_uint64 put_byte_array

  encode-Writes : (l : Layout) (v : Val l) → Fits l v → Writes (encode l v)
  encode-Writes uint32 v h = word-Writes v h
  encode-Writes uint64 v h =
      (put_uint64 v, refl, IsAligned-append _ _ (put_uint32-IsAligned _) (put_uint32-IsAligned v))
  encode-Writes boolean v h = (put_bool v, refl, put_bool-IsAligned v)
  encode-Writes opaque v h = text-Writes v h
  encode-Writes text v h = text-Writes v h
  encode-Writes bytes16 v h = (put_byte_array v, refl, padded-IsAligned v)
  encode-Writes uint32s v h = put_counted-Writes IsUint32 put_word word-Writes v h
  encode-Writes triple (a, b, c) h = (
    put_uint32 a ++ (put_uint32 b ++ put_uint32 c),
    refl,
    IsAligned-append _ _ (put_uint32-IsAligned a)
        (IsAligned-append _ _ (put_uint32-IsAligned b) (put_uint32-IsAligned c)),
  )
  encode-Writes strings v h = put_counted-Writes IsShort put_text text-Writes v h
  encode-Writes (struct fs) v h = encode_all-Writes' fs v h
  encode-Writes (union fs) (mode, v) (hm, h) =
      let (bs, e, x) = encode_arm-Writes fs mode v h in
      (put_uint32 mode ++ bs, rw e, IsAligned-append _ bs (put_uint32-IsAligned mode) x)
  encode-Writes (chain fs) v h =
      put_chain-Writes (FitsAll fs) (encode_all fs) (encode_all-Writes' fs) v h
  encode-Writes (pointer l) v h =
      put_pointer-Writes (Fits l) (encode l) (λ a. encode-Writes l a) v h
  encode-Writes (slice l) v h = put_counted-Writes (Fits l) (encode l) (λ a. encode-Writes l a) v h

  encode_all-Writes' : (fs : Fields) (v : Vals fs) → FitsAll fs v → Writes (encode_all fs v)
  encode_all-Writes' end v h = ([], refl, refl)
  encode_all-Writes' (field l fs) (v, vs) (hv, hs) =
      let (b, e, x) = encode-Writes l v hv in
      let (bs, e', x') = encode_all-Writes' fs vs hs in
      (b ++ bs, rw (e, e'), IsAligned-append b bs x x')

  encode_arm-Writes :
      (fs : Fields) (mode : ℕ) (v : Vals fs) → FitsArm fs mode v → Writes (encode_arm fs mode v)
  encode_arm-Writes end mode v h = absurd h
  encode_arm-Writes (field l fs) zero (v, vs) (hv, hs) = encode-Writes l v hv
  encode_arm-Writes (field l fs) (suc mode) (v, vs) (hv, hs) = encode_arm-Writes fs mode vs hs

pub encode_all-Writes : (fs : Fields) (v : Vals fs) → FitsAll fs v → Writes (encode_all fs v)
encode_all-Writes fs v h = encode_all-Writes' fs v h

-- Every value that the wire can carry is encoded without error, in whole words of four bytes, and
-- decoding these bytes, with any bytes behind them, gives the value back and leaves the bytes behind.
pub encode_round_trip :
    (l : Layout) (v : Val l)
    → Fits l v
    → (bs : List ℕ) × (encode l v ≡ ok bs)
      × (length bs % 4 ≡ 0)
      × ((rest : List ℕ) → decode l (bs ++ rest) ≡ ok (v, rest))
encode_round_trip l v h =
    let (bs, e, x) = encode-Writes l v h in (bs, e, x, λ rest. decode-encode l v bs rest h e)
