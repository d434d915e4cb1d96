-- ===== src/Xdr/Total.antt =====
-- What decoding leaves of a list of bytes is a suffix of it. `Unmarshal`, which reads on from a byte count, is decoding in sequence.
use Prim.Native.Nat.add
use nfs4go.Common.{
  ℕ, zero, suc, ◌+◌, ◌-◌, ◌≤◌, ◌<◌, ◌≡◌, refl, sym, ap, subst, ◌∙◌, Bool, true, false, none, some,
  List, [], ◌∷◌, ◌++◌, append_assoc, arith, length, take, drop, length-append, drop-append, leb,
  Bool-cases, inl, inr, Result, ok, err, panic, stuck, ◌>>=◌, >>=-eq-ok,
}
use nfs4go.Xdr.Words.{
  Read, read_full, get_uint32, get_uint64, get_bool, get_byte_array, get_bytes, get_times, pad,
}
use nfs4go.Xdr.WordLaws.{read_full_takes}
use nfs4go.Xdr.Layout.{
  Layout, Fields, uint32, uint64, boolean, opaque, text, bytes16, uint32s, triple, strings, struct,
  union, chain, pointer, slice, end, field, Val, get_counted, get_pointer, get_chain,
  get_chain_loop,
}
use nfs4go.Xdr.Codec.{decode, decode_all, decode_arm, read_counted, unmarshal, unmarshal_from}

abbrev pub IsSuffix : List ℕ → List ℕ → Type 0
IsSuffix rest bs = (front : List ℕ) × (bs ≡ front ++ rest)

-- A reader's answer to `bs` is an error, or a value and a suffix of `bs`.
abbrev pub Reads : {A : Type 0} → List ℕ → Result (A × List ℕ) → Type 0
Reads bs (ok (a, rest)) = IsSuffix rest bs
Reads bs (err e) = Unit {0}
Reads bs panic = ⊥
Reads bs stuck = ⊥

suffix_trans : (a b c : List ℕ) → IsSuffix b a → IsSuffix c b → IsSuffix c a
suffix_trans a b c (f, e) (g, d) = (f ++ g, e ∙ ap (◌++◌ f) d ∙ sym (append_assoc f g c))

pub suffix-length-le : (rest bs : List ℕ) → IsSuffix rest bs → length rest ≤ length bs
suffix-length-le rest bs (f, e) = omega (arith, ap length e, length-append f rest)

Reads-weaken :
    {A : Type 0} (bs rest : List ℕ) (r : Result (A × List ℕ))
    → IsSuffix rest bs
    → Reads rest r
    → Reads bs r
Reads-weaken bs rest (ok (a, rest')) s h = suffix_trans bs rest rest' s h
Reads-weaken bs rest (err e) s h = tt
Reads-weaken bs rest panic s h = h
Reads-weaken bs rest stuck s h = h

-- The rule for one step of a chain of readers.
Reads-bind :
    {A B : Type 0} (bs : List ℕ) (m : Result (A × List ℕ)) (f : A × List ℕ → Result (B × List ℕ))
    → Reads bs m
    → ((a : A) (rest : List ℕ) → IsSuffix rest bs → m ≡ ok (a, rest) → Reads rest (f (a, rest)))
    → Reads bs (m >>= f)
Reads-bind bs (ok (a, rest)) f h k = Reads-weaken bs rest (f (a, rest)) h (k a rest h refl)
Reads-bind bs (err e) f h k = tt
Reads-bind bs panic f h k = h
Reads-bind bs stuck f h k = h

whole : (bs : List ℕ) → IsSuffix bs bs
whole bs = ([], refl)

take-append-drop {ℓ} : {A : Type ℓ} (n : ℕ) (xs : List A) → take n xs ++ drop n xs ≡ xs
take-append-drop zero xs = refl
take-append-drop (suc n) [] = refl
take-append-drop (suc n) (x ∷ xs) = ap (◌∷◌ x) (take-append-drop n xs)

read_full-Reads : (n : ℕ) (bs : List ℕ) → Reads bs (read_full n bs)
unfolding read_full
read_full-Reads zero bs = ([], refl)
read_full-Reads (suc n) [] = tt
read_full-Reads (suc n) (b ∷ bs) = elim (Bool-cases (leb (suc n) (length (b ∷ bs)))) [
  | inl e ↦ rw e (take (suc n) (b ∷ bs), sym (take-append-drop (suc n) (b ∷ bs)))
  | inr e ↦ rw e tt
]

get_uint32-Reads : (bs : List ℕ) → Reads bs (get_uint32 bs)
unfolding get_uint32
get_uint32-Reads bs = Reads-bind bs _ _ (read_full-Reads 4 bs) (λ b rest s e. whole rest)

get_uint64-Reads : (bs : List ℕ) → Reads bs (get_uint64 bs)
unfolding get_uint64
get_uint64-Reads bs = Reads-bind bs _ _ (read_full-Reads 8 bs) (λ b rest s e. whole rest)

get_bool-Reads : (bs : List ℕ) → Reads bs (get_bool bs)
unfolding get_bool
get_bool-Reads bs = Reads-bind bs _ _ (get_uint32-Reads bs) (λ b rest s e. whole rest)

-- A flag takes four bytes.
get_bool_takes :
    (bs : List ℕ) (v : Bool) (rest : List ℕ) → get_bool bs ≡ ok (v, rest) → length rest < length bs
unfolding get_bool get_uint32
get_bool_takes bs v rest e =
    let (x, p, q) = >>=-eq-ok (get_uint32 bs) _ e in
    let (y, p', q') = >>=-eq-ok (read_full 4 bs) _ p in
    let same : rest ≡ y.1 = cc in
    let (_, n) = read_full_takes 4 bs {b = y.0} {rest = y.1} p' in omega (arith, ap length same)

get_byte_array-Reads : (n : ℕ) (bs : List ℕ) → Reads bs (get_byte_array n bs)
unfolding get_byte_array
get_byte_array-Reads n bs =
    Reads-bind bs _ _ (read_full-Reads n bs) λ b rest s e.
      Reads-bind rest _ _ (read_full-Reads (pad n) rest) (λ c rest' s' e'. whole rest')

get_bytes-Reads : (bs : List ℕ) → Reads bs (get_bytes bs)
unfolding get_bytes
get_bytes-Reads bs = Reads-bind bs _ _ (get_uint32-Reads bs) λ n rest s e.
    Reads-bind rest _ _ (read_full-Reads (n + pad n) rest) (λ c rest' s' e'. whole rest')

module _ {A : Type 0} (get : Read A) (reads : (bs : List ℕ) → Reads bs (get bs)) where
  get_times-Reads : (n : ℕ) (bs : List ℕ) → Reads bs (get_times n get bs)
  unfolding get_times
  get_times-Reads zero bs = whole bs
  get_times-Reads (suc n) bs =
      Reads-bind bs _ _ (reads bs)
        λ a rest s e. Reads-bind rest _ _ (get_times-Reads n rest) (λ as' rest' s' e'. whole rest')

  get_counted-Reads : (bs : List ℕ) → Reads bs (get_counted get bs)
  unfolding get_counted
  get_counted-Reads bs =
      Reads-bind bs _ _ (get_uint32-Reads bs) (λ n rest s e. get_times-Reads n rest)

  get_pointer-Reads : (bs : List ℕ) → Reads bs (get_pointer get bs)
  unfolding get_pointer
  get_pointer-Reads bs = Reads-bind bs _ _ (get_bool-Reads bs) λ has_value rest s e.
      elim has_value
        as (λ h.
          Reads rest
            (elim h [ true ↦ get rest >>= λ x. ok (some x.0, x.1) | false ↦ ok (none, rest) ])) [
              | true ↦ Reads-bind rest _ _ (reads rest) (λ a rest' s' e'. whole rest')
              | false ↦ whole rest
            ]

  get_chain_loop-Reads :
      (fuel : ℕ) (bs : List ℕ) → length bs < fuel → Reads bs (get_chain_loop fuel get bs)
  unfolding get_chain_loop
  get_chain_loop-Reads zero bs h = absurd (omega arith)
  get_chain_loop-Reads (suc fuel) bs h = Reads-bind bs _ _ (get_bool-Reads bs) λ has_value rest s e.
      elim has_value
        as (λ h. Reads {A = List A} rest (elim h [
          | true ↦ get rest >>= λ x. get_chain_loop fuel get x.1 >>= λ y. ok (x.0 ∷ y.0, y.1)
          | false ↦ ok ([], rest)
        ])) [
          | true ↦ Reads-bind rest _ _ (reads rest) λ a rest' s' e'.
              Reads-bind rest' _ _
                (get_chain_loop-Reads fuel rest' (
                  omega
                    (arith, get_bool_takes bs has_value rest e, suffix-length-le rest' rest s')))
                (λ as' rest'' s'' e''. whole rest'')
          | false ↦ whole rest
        ]

mutual
  unfolding decode get_chain

  decode-Reads : (l : Layout) (bs : List ℕ) → Reads bs (decode l bs)
  decode-Reads uint32 bs = get_uint32-Reads bs
  decode-Reads uint64 bs = get_uint64-Reads bs
  decode-Reads boolean bs = get_bool-Reads bs
  decode-Reads opaque bs = get_bytes-Reads bs
  decode-Reads text bs = get_bytes-Reads bs
  decode-Reads bytes16 bs = get_byte_array-Reads 16 bs
  decode-Reads uint32s bs = get_counted-Reads get_uint32 get_uint32-Reads bs
  decode-Reads triple bs = Reads-bind bs _ _ (get_uint32-Reads bs) λ a rest s e.
      Reads-bind rest _ _ (get_uint32-Reads rest) λ b rest' s' e'.
        Reads-bind rest' _ _ (get_uint32-Reads rest') (λ c rest'' s'' e''. whole rest'')
  decode-Reads strings bs = get_counted-Reads get_bytes get_bytes-Reads bs
  decode-Reads (struct fs) bs = decode_all-Reads fs bs
  decode-Reads (union fs) bs = Reads-bind bs _ _ (get_uint32-Reads bs) λ mode rest s e.
      Reads-bind rest _ _ (decode_arm-Reads fs mode rest) (λ v rest' s' e'. whole rest')
  decode-Reads (chain fs) bs =
      get_chain_loop-Reads (decode_all fs) (decode_all-Reads fs) (suc (length bs)) bs (omega arith)
  decode-Reads (pointer l) bs = get_pointer-Reads (decode l) (λ b. decode-Reads l b) bs
  decode-Reads (slice l) bs = get_counted-Reads (decode l) (λ b. decode-Reads l b) bs

  decode_all-Reads : (fs : Fields) (bs : List ℕ) → Reads bs (decode_all fs bs)
  decode_all-Reads end bs = whole bs
  decode_all-Reads (field l fs) bs =
      Reads-bind bs _ _ (decode-Reads l bs)
        λ v rest s e. Reads-bind rest _ _ (decode_all-Reads fs rest) (λ vs rest' s' e'. whole rest')

  decode_arm-Reads : (fs : Fields) (mode : ℕ) (bs : List ℕ) → Reads bs (decode_arm fs mode bs)
  decode_arm-Reads end mode bs = tt
  decode_arm-Reads (field l fs) zero bs =
      Reads-bind bs _ _ (decode-Reads l bs) (λ v rest s e. whole rest)
  decode_arm-Reads (field l fs) (suc mode) bs =
      Reads-bind bs _ _ (decode_arm-Reads fs mode bs) (λ v rest s e. whole rest)

drop_suffix : (bs rest : List ℕ) → IsSuffix rest bs → drop (length bs - length rest) bs ≡ rest
drop_suffix bs rest (front, p) =
    rw p (drop-append _ front rest (omega (arith, length-append front rest)))

drop-drop : (m n : ℕ) (bs : List ℕ) → drop n (drop m bs) ≡ drop (m + n) bs
drop-drop zero n bs = rw (add.zero n)
drop-drop (suc m) zero [] = rw (add.suc m zero)
drop-drop (suc m) (suc n) [] = rw (add.suc m (suc n))
drop-drop (suc m) n (b ∷ bs) = rw (add.suc m n) (drop-drop m n bs)

-- The number of bytes that `Read` reports leads to the rest.
counted_rest :
    (l : Layout) (bs : List ℕ) (v : Val l) (rest : List ℕ)
    → decode l bs ≡ ok (v, rest)
    → drop (length bs - length rest) bs ≡ rest
counted_rest l bs v rest e = drop_suffix bs rest (subst (Reads bs) e (decode-Reads l bs))

unmarshal_from-decode_all :
    (fs : Fields) (consumed : ℕ) (bs : List ℕ)
    → unmarshal_from fs consumed bs ≡ decode_all fs (drop consumed bs)
unfolding unmarshal_from read_counted decode_all
unmarshal_from-decode_all end consumed bs = refl
unmarshal_from-decode_all (field l fs) consumed bs =
    by_outcome (λ n. unmarshal_from-decode_all fs n bs) (decode l (drop consumed bs)) refl
  where
    by_outcome :
        ((n : ℕ) → unmarshal_from fs n bs ≡ decode_all fs (drop n bs))
        → (r : Result (Val l × List ℕ)) → decode l (drop consumed bs) ≡ r
        → unmarshal_from (field l fs) consumed bs ≡ decode_all (field l fs) (drop consumed bs)
    by_outcome later (ok (v, rest)) e = rw (
      e,
      later (consumed + (length (drop consumed bs) - length rest)),
      ← drop-drop,
      counted_rest l (drop consumed bs) v rest e,
    )
    by_outcome later (err x) e = rw e
    by_outcome later panic e = rw e
    by_outcome later stuck e = rw e

-- `Unmarshal`, which starts each argument at the number of bytes counted so far, decodes the
-- arguments in sequence and returns exactly the bytes that they leave.
pub unmarshal-decode_all : (fs : Fields) (bs : List ℕ) → unmarshal fs bs ≡ decode_all fs bs
unfolding unmarshal
unmarshal-decode_all fs bs = unmarshal_from-decode_all fs 0 bs
