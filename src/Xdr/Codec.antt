-- ===== src/Xdr/Codec.antt =====
-- xdr/encoder.go and xdr/decoder.go: `Encode`, `EncodeAll`, `Union` and their inverses, over layouts,
-- and xdr/marshal.go.
use nfs4go.Common.{
  ℕ, zero, suc, ◌+◌, ◌-◌, List, [], ◌++◌, length, drop, Result, ok, err, bad_union_mode, ◌>>=◌,
}
use nfs4go.Xdr.Words.{
  Read, put_uint32, get_uint32, put_uint64, get_uint64, put_bool, get_bool, put_byte_array,
  get_byte_array, put_bytes, get_bytes,
}
use nfs4go.Xdr.Layout.{
  Layout, Fields, uint32, uint64, boolean, opaque, text, bytes16, uint32s, triple, strings, struct,
  union, chain, pointer, slice, end, field, Val, Vals, zero_val, zero_vals, put_counted,
  get_counted, put_pointer, get_pointer, put_chain, get_chain,
}

abbrev pub put_word : ℕ → Result (List ℕ)
put_word v = ok (put_uint32 v)

abbrev pub put_text : List ℕ → Result (List ℕ)
put_text v = ok (put_bytes v)

-- `encode` is `Encode`, `encode_all` is `EncodeAll`, and `encode_arm` is the choice that `Union` makes
-- once the mode is written.
unfoldable mutual
  pub encode : (l : Layout) → Val l → Result (List ℕ)
  encode uint32 v = put_word v
  encode uint64 v = ok (put_uint64 v)
  encode boolean v = ok (put_bool v)
  encode opaque v = put_text v
  encode text v = put_text v
  encode bytes16 v = ok (put_byte_array v)
  encode uint32s v = put_counted put_word v
  encode triple (a, b, c) = ok (put_uint32 a ++ (put_uint32 b ++ put_uint32 c))
  encode strings v = put_counted put_text v
  encode (struct fs) v = encode_all fs v
  encode (union fs) (mode, v) = do bs ← encode_arm fs mode v; ok (put_uint32 mode ++ bs)
  encode (chain fs) v = put_chain (encode_all fs) v
  encode (pointer l) v = put_pointer (encode l) v
  encode (slice l) v = put_counted (encode l) v

  pub encode_all : (fs : Fields) → Vals fs → Result (List ℕ)
  encode_all end v = ok []
  encode_all (field l fs) (v, vs) = do b ← encode l v; bs ← encode_all fs vs; ok (b ++ bs)

  pub encode_arm : (fs : Fields) → ℕ → Vals fs → Result (List ℕ)
  encode_arm end mode v = err bad_union_mode
  encode_arm (field l fs) zero (v, vs) = encode l v
  encode_arm (field l fs) (suc mode) (v, vs) = encode_arm fs mode vs

-- `Decode`, `DecodeAll` and `Union` on a reader that ends after these bytes, as a connection or
-- `bytes.Buffer` does; on `Buf`, which never ends, Mux/State turns the end into an endless loop. That
-- the code allocates an announced number of elements before it reads them is not modelled: memory
-- has no bound here.
unfoldable mutual
  pub decode : (l : Layout) → Read (Val l)
  decode uint32 bs = get_uint32 bs
  decode uint64 bs = get_uint64 bs
  decode boolean bs = get_bool bs
  decode opaque bs = get_bytes bs
  decode text bs = get_bytes bs
  decode bytes16 bs = get_byte_array 16 bs
  decode uint32s bs = get_counted get_uint32 bs
  decode triple bs = do
    (a, rest) ← get_uint32 bs
    (b, rest') ← get_uint32 rest
    (c, rest'') ← get_uint32 rest'
    ok ((a, b, c), rest'')
  decode strings bs = get_counted get_bytes bs
  decode (struct fs) bs = decode_all fs bs
  decode (union fs) bs = do
    (mode, rest) ← get_uint32 bs
    (v, rest') ← decode_arm fs mode rest
    ok ((mode, v), rest')
  decode (chain fs) bs = get_chain (decode_all fs) bs
  decode (pointer l) bs = get_pointer (decode l) bs
  decode (slice l) bs = get_counted (decode l) bs

  pub decode_all : (fs : Fields) → Read (Vals fs)
  decode_all end bs = ok (tt, bs)
  decode_all (field l fs) bs = do
    (v, rest) ← decode l bs
    (vs, rest') ← decode_all fs rest
    ok ((v, vs), rest')

  pub decode_arm : (fs : Fields) → ℕ → Read (Vals fs)
  decode_arm end mode bs = err bad_union_mode
  decode_arm (field l fs) zero bs = do (v, rest) ← decode l bs; ok ((v, zero_vals fs), rest)
  decode_arm (field l fs) (suc mode) bs = do
    (vs, rest) ← decode_arm fs mode bs
    ok ((zero_val l, vs), rest)

-- `Decoder.Read`: the value, and the number of bytes that the counting reader has seen.
unfoldable pub read_counted : (l : Layout) → List ℕ → Result (Val l × ℕ)
read_counted l bs = do (v, rest) ← decode l bs; ok (v, length bs - length rest)

-- `Marshal` writes its arguments one after the other into a new buffer.
unfoldable pub marshal : (fs : Fields) → Vals fs → Result (List ℕ)
marshal fs vs = encode_all fs vs

-- `Unmarshal` reads each argument from `data[consumed:]`, and returns what is left.
unfoldable pub unmarshal_from : (fs : Fields) → ℕ → Read (Vals fs)
unmarshal_from end consumed bs = ok (tt, drop consumed bs)
unmarshal_from (field l fs) consumed bs = do
  (v, n) ← read_counted l (drop consumed bs)
  (vs, rest) ← unmarshal_from fs (consumed + n) bs
  ok ((v, vs), rest)

unfoldable pub unmarshal : (fs : Fields) → Read (Vals fs)
unfolding unmarshal_from
unmarshal fs bs = unmarshal_from fs 0 bs
