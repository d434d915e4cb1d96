-- ===== src/Xdr/RoundTrip.antt =====
-- Decoding what was encoded, for every layout.
use nfs4go.Common.{
  ℕ, zero, suc, ◌≡◌, sym, ap, true, false, List, [], ◌∷◌, ◌++◌, append_assoc, Option, none, some,
  arith, length, All, length-append, ◌<◌, Result, ok, >>=-eq-ok, ok-injective,
}
use nfs4go.Xdr.Words.{
  Read, put_uint32, get_uint32, put_bool, get_bytes, put_each, IsUint32, IsUint64,
}
use nfs4go.Xdr.WordLaws.{
  get-put_uint32, get-put_uint64, get-put_bool, get-put_byte_array, get-put_bytes, get-put_each,
}
use nfs4go.Xdr.Layout.{
  Layout, Fields, uint32, uint64, boolean, opaque, text, bytes16, uint32s, triple, strings, struct,
  union, chain, pointer, slice, end, field, Val, Vals, zero_val, zero_vals, put_counted,
  get_counted, put_pointer, get_pointer, put_chain, get_chain, get_chain_loop,
}
use nfs4go.Xdr.Codec.{
  encode, encode_all, encode_arm, decode, decode_all, decode_arm, put_word, put_text,
}

abbrev pub SizedAll : {A : Type 0} → (A → Type 0) → List A → Type 0
SizedAll P as' = IsUint32 (length as') × All P as'

abbrev pub OptionAll : {A : Type 0} → (A → Type 0) → Option A → Type 0
OptionAll P none = Unit {0}
OptionAll P (some a) = P a

abbrev pub IsShort : List ℕ → Type 0
IsShort v = IsUint32 (length v)

-- The values that the wire can carry: numbers within their width, lengths below 2 ^ 32, and unions
-- whose mode chooses an arm, with zero values in the other arms.
abbrev mutual
  pub Fits : (l : Layout) → Val l → Type 0
  Fits uint32 v = IsUint32 v
  Fits uint64 v = IsUint64 v
  Fits boolean v = Unit {0}
  Fits opaque v = IsShort v
  Fits text v = IsShort v
  Fits bytes16 v = length v ≡ 16
  Fits uint32s v = SizedAll IsUint32 v
  Fits triple (a, b, c) = IsUint32 a × IsUint32 b × IsUint32 c
  Fits strings v = SizedAll IsShort v
  Fits (struct fs) v = FitsAll fs v
  Fits (union fs) (mode, v) = IsUint32 mode × FitsArm fs mode v
  Fits (chain fs) v = All (FitsAll fs) v
  Fits (pointer l) v = OptionAll (Fits l) v
  Fits (slice l) v = SizedAll (Fits l) v

  pub FitsAll : (fs : Fields) → Vals fs → Type 0
  FitsAll end v = Unit {0}
  FitsAll (field l fs) (v, vs) = Fits l v × FitsAll fs vs

  pub FitsArm : (fs : Fields) → ℕ → Vals fs → Type 0
  FitsArm end mode v = ⊥
  FitsArm (field l fs) zero (v, vs) = Fits l v × (vs ≡ zero_vals fs)
  FitsArm (field l fs) (suc mode) (v, vs) = (v ≡ zero_val l) × FitsArm fs mode vs

-- What follows an entry of a chain is shorter than the chain.
chain_room :
    (b b' bs rest : List ℕ) (fuel : ℕ)
    → put_bool true ++ (b ++ b') ≡ bs
    → length (bs ++ rest) < suc fuel
    → length (b' ++ rest) < fuel
unfolding put_bool put_uint32
chain_room b b' bs rest fuel e room =
    omega (arith, ap length e, length-append bs rest, length-append b b', length-append b' rest)

module _ {A : Type 0} (P : A → Type 0) (put : A → Result (List ℕ)) (get : Read A)
    (inv : (a : A) (b r : List ℕ) → P a → put a ≡ ok b → get (b ++ r) ≡ ok (a, r)) where
  counted_inv :
      (as' : List A) (bs rest : List ℕ)
      → SizedAll P as'
      → put_counted put as' ≡ ok bs
      → get_counted get (bs ++ rest) ≡ ok (as', rest)
  unfolding put_counted get_counted
  counted_inv as' bs rest (size, h) e =
      let (b, p, q) = >>=-eq-ok (put_each put as') _ e in
      rw (sym (ok-injective q), append_assoc, get-put_uint32 (length as') _ size)
        (get-put_each P put get inv as' b rest h p)

  pointer_inv :
      (v : Option A) (bs rest : List ℕ)
      → OptionAll P v
      → put_pointer put v ≡ ok bs
      → get_pointer get (bs ++ rest) ≡ ok (v, rest)
  unfolding put_pointer get_pointer
  pointer_inv none bs rest h e = rw (sym (ok-injective e), get-put_bool false rest)
  pointer_inv (some a) bs rest h e =
      let (b, p, q) = >>=-eq-ok (put a) _ e in
      rw (sym (ok-injective q), append_assoc, get-put_bool true, inv a b rest h p)

  chain_inv :
      (v : List A) (bs rest : List ℕ) (fuel : ℕ)
      → All P v
      → put_chain put v ≡ ok bs
      → length (bs ++ rest) < fuel
      → get_chain_loop fuel get (bs ++ rest) ≡ ok (v, rest)
  unfolding put_chain get_chain_loop
  chain_inv v bs rest zero h e room = absurd (omega arith)
  chain_inv [] bs rest (suc fuel) h e room = rw (sym (ok-injective e), get-put_bool false rest)
  chain_inv (a ∷ as') bs rest (suc fuel) (ha, h) e room =
      let (b, p, q) = >>=-eq-ok (put a) _ e in
      let (b', p', q') = >>=-eq-ok (put_chain put as') _ q in
      rw (
        sym (ok-injective q'),
        append_assoc,
        get-put_bool true,
        append_assoc,
        inv a b _ ha p,
        chain_inv as' b' rest fuel h p' (chain_room b b' bs rest fuel (ok-injective q') room),
      )

number_inv :
    (v : ℕ) (b r : List ℕ) → IsUint32 v → put_word v ≡ ok b → get_uint32 (b ++ r) ≡ ok (v, r)
number_inv v b r h e = rw (sym (ok-injective e)) (get-put_uint32 v r h)

text_inv : (v b r : List ℕ) → IsShort v → put_text v ≡ ok b → get_bytes (b ++ r) ≡ ok (v, r)
text_inv v b r h e = rw (sym (ok-injective e)) (get-put_bytes v r h)

mutual
  unfolding encode decode get_chain

  decode_inv :
      (l : Layout) (v : Val l) (bs rest : List ℕ)
      → Fits l v
      → encode l v ≡ ok bs
      → decode l (bs ++ rest) ≡ ok (v, rest)
  decode_inv uint32 v bs rest h e = number_inv v bs rest h e
  decode_inv uint64 v bs rest h e = rw (sym (ok-injective e)) (get-put_uint64 v rest h)
  decode_inv boolean v bs rest h e = rw (sym (ok-injective e)) (get-put_bool v rest)
  decode_inv opaque v bs rest h e = text_inv v bs rest h e
  decode_inv text v bs rest h e = text_inv v bs rest h e
  decode_inv bytes16 v bs rest h e = rw (sym (ok-injective e)) (get-put_byte_array 16 v rest h)
  decode_inv uint32s v bs rest h e =
      counted_inv IsUint32 put_word get_uint32 number_inv v bs rest h e
  decode_inv triple (a, b, c) bs rest (ha, hb, hc) e = rw (
    sym (ok-injective e),
    append_assoc,
    get-put_uint32 a _ ha,
    append_assoc,
    get-put_uint32 b _ hb,
    get-put_uint32 c _ hc,
  )
  decode_inv strings v bs rest h e = counted_inv IsShort put_text get_bytes text_inv v bs rest h e
  decode_inv (struct fs) v bs rest h e = decode_all_inv fs v bs rest h e
  decode_inv (union fs) (mode, v) bs rest (hm, h) e =
      let (b, p, q) = >>=-eq-ok (encode_arm fs mode v) _ e in
      rw (
        sym (ok-injective q),
        append_assoc,
        get-put_uint32 mode _ hm,
        decode_arm_inv fs mode v b rest h p,
      )
  decode_inv (chain fs) v bs rest h e =
      chain_inv (FitsAll fs) (encode_all fs) (decode_all fs) (decode_all_inv fs) v bs rest
        (suc (length (bs ++ rest))) h e (omega arith)
  decode_inv (pointer l) v bs rest h e =
      pointer_inv (Fits l) (encode l) (decode l) (λ a b r. decode_inv l a b r) v bs rest h e
  decode_inv (slice l) v bs rest h e =
      counted_inv (Fits l) (encode l) (decode l) (λ a b r. decode_inv l a b r) v bs rest h e

  decode_all_inv :
      (fs : Fields) (v : Vals fs) (bs rest : List ℕ)
      → FitsAll fs v
      → encode_all fs v ≡ ok bs
      → decode_all fs (bs ++ rest) ≡ ok (v, rest)
  decode_all_inv end v bs rest h e = rw (sym (ok-injective e))
  decode_all_inv (field l fs) (v, vs) bs rest (hv, hs) e =
      let (b, p, q) = >>=-eq-ok (encode l v) _ e in
      let (b', p', q') = >>=-eq-ok (encode_all fs vs) _ q in
      rw (
        sym (ok-injective q'),
        append_assoc,
        decode_inv l v b _ hv p,
        decode_all_inv fs vs b' rest hs p',
      )

  decode_arm_inv :
      (fs : Fields) (mode : ℕ) (v : Vals fs) (bs rest : List ℕ)
      → FitsArm fs mode v
      → encode_arm fs mode v ≡ ok bs
      → decode_arm fs mode (bs ++ rest) ≡ ok (v, rest)
  decode_arm_inv end mode v bs rest h e = absurd h
  decode_arm_inv (field l fs) zero (v, vs) bs rest (hv, hs) e = rw (decode_inv l v bs rest hv e, hs)
  decode_arm_inv (field l fs) (suc mode) (v, vs) bs rest (hv, hs) e =
      rw (decode_arm_inv fs mode vs bs rest hs e, hv)

-- Decoding what `Encode` wrote for a value that the wire can carry gives the value back, and leaves
-- the bytes behind it, for every layout.
pub decode-encode :
    (l : Layout) (v : Val l) (bs rest : List ℕ)
    → Fits l v
    → encode l v ≡ ok bs
    → decode l (bs ++ rest) ≡ ok (v, rest)
decode-encode l v bs rest h e = decode_inv l v bs rest h e

pub decode_all-encode_all :
    (fs : Fields) (v : Vals fs) (bs rest : List ℕ)
    → FitsAll fs v
    → encode_all fs v ≡ ok bs
    → decode_all fs (bs ++ rest) ≡ ok (v, rest)
decode_all-encode_all fs v bs rest h e = decode_all_inv fs v bs rest h e
