-- ===== src/Xdr/Layout.antt =====
-- xdr/decoder.go and xdr/encoder.go: what `Decode` and `Encode` do with a Go type. The type switch
-- of the two methods, and the methods that xdr/generate writes for the structs, are driven by a
-- description of the type, its layout. The floating-point cases, which no message uses, are left out.
use nfs4go.Common.{
  ℕ, zero, suc, Bool, true, false, List, [], ◌∷◌, ◌++◌, Option, none, some, length, Result, ok,
  stuck, ◌>>=◌,
}
use nfs4go.Xdr.Words.{Read, put_uint32, get_uint32, put_bool, get_bool, get_times, put_each}

-- `opaque` is `[]byte`, `text` is `string`, `bytes16` is `[16]byte`, `triple` is `[3]uint32`.
-- A `pointer` is a field `*T`, and a `slice` a field `[]T` of structs. A `chain` is a field `*T` of
-- a struct T whose last field is again `*T`, as `Entry4` has it, over the other fields of T.
mutual
  pub data Layout : Type 0 where
    uint32 uint64 boolean opaque text bytes16 uint32s triple strings : Layout
    struct union chain : Fields → Layout
    pointer slice : Layout → Layout

  pub data Fields : Type 0 where
    end : Fields
    field : Layout → Fields → Fields

-- A field in front of the others.
infixr 20 ◌▸◌
pattern abbrev pub ◌▸◌ : Layout → Fields → Fields
l ▸ fs = field l fs

-- The Go values of a type. A union has its mode and all its arms.
abbrev mutual
  pub Val : Layout → Type 0
  Val uint32 = ℕ
  Val uint64 = ℕ
  Val boolean = Bool
  Val opaque = List ℕ
  Val text = List ℕ
  Val bytes16 = List ℕ
  Val uint32s = List ℕ
  Val triple = ℕ × ℕ × ℕ
  Val strings = List (List ℕ)
  Val (struct fs) = Vals fs
  Val (union fs) = ℕ × Vals fs
  Val (chain fs) = List (Vals fs)
  Val (pointer l) = Option (Val l)
  Val (slice l) = List (Val l)

  pub Vals : Fields → Type 0
  Vals end = Unit {0}
  Vals (field l fs) = Val l × Vals fs

-- The zero value of a type, which a new struct has in each field.
unfoldable mutual
  pub zero_val : (l : Layout) → Val l
  zero_val uint32 = 0
  zero_val uint64 = 0
  zero_val boolean = false
  zero_val opaque = []
  zero_val text = []
  zero_val bytes16 = 0 ∷ 0 ∷ 0 ∷ 0 ∷ 0 ∷ 0 ∷ 0 ∷ 0 ∷ 0 ∷ 0 ∷ 0 ∷ 0 ∷ 0 ∷ 0 ∷ 0 ∷ 0 ∷ []
  zero_val uint32s = []
  zero_val triple = (0, 0, 0)
  zero_val strings = []
  zero_val (struct fs) = zero_vals fs
  zero_val (union fs) = (0, zero_vals fs)
  zero_val (chain fs) = []
  zero_val (pointer l) = none
  zero_val (slice l) = []

  pub zero_vals : (fs : Fields) → Vals fs
  zero_vals end = tt
  zero_vals (field l fs) = (zero_val l, zero_vals fs)

-- `size` elements, and before them their number, cut to 32 bits.
unfoldable pub put_counted : {A : Type 0} → (A → Result (List ℕ)) → List A → Result (List ℕ)
put_counted put as' = do bs ← put_each put as'; ok (put_uint32 (length as') ++ bs)

unfoldable pub get_counted : {A : Type 0} → Read A → Read (List A)
get_counted get bs = do (n, rest) ← get_uint32 bs; get_times n get rest

unfoldable pub put_pointer : {A : Type 0} → (A → Result (List ℕ)) → Option A → Result (List ℕ)
put_pointer put none = ok (put_bool false)
put_pointer put (some a) = do bs ← put a; ok (put_bool true ++ bs)

unfoldable pub get_pointer : {A : Type 0} → Read A → Read (Option A)
get_pointer get bs = do
  (has_value, rest) ← get_bool bs
  elim has_value [ true ↦ do (a, rest') ← get rest; ok (some a, rest') | false ↦ ok (none, rest) ]

-- A linked list: a flag before each entry, and a last flag behind them.
unfoldable pub put_chain : {A : Type 0} → (A → Result (List ℕ)) → List A → Result (List ℕ)
put_chain put [] = ok (put_bool false)
put_chain put (a ∷ as') = do bs ← put a; bs' ← put_chain put as'; ok (put_bool true ++ (bs ++ bs'))

-- Each round reads a flag of four bytes, so the number of bytes bounds the rounds.
unfoldable pub get_chain_loop : {A : Type 0} → ℕ → Read A → Read (List A)
get_chain_loop zero get bs = stuck
get_chain_loop (suc fuel) get bs = do
  (has_value, rest) ← get_bool bs
  elim has_value [
    | true ↦ do
      (a, rest') ← get rest
      (as', rest'') ← get_chain_loop fuel get rest'
      ok (a ∷ as', rest'')
    | false ↦ ok ([], rest)
  ]

unfoldable pub get_chain : {A : Type 0} → Read A → Read (List A)
unfolding get_chain_loop
get_chain get bs = get_chain_loop (suc (length bs)) get bs
