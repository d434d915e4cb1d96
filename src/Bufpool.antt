-- ===== src/Bufpool.antt =====
-- bufpool/buf.go and bufpool/pool.go. A buffer is its backing slice with a read and a write position.
-- A slice that a caller holds into a buffer is written before the next call, so `allocate` and the
-- caller's copy are separate steps on the same buffer.
pub mod Contents
use nfs4go.Common.{
  ℕ, zero, suc, ◌+◌, ◌-◌, List, [], ◌∷◌, ◌++◌, length, take, drop, replicate, ltb, leb,
  if◌then◌else◌, Result, ok, panic, ◌>>=◌,
}

pub record Buf : Type 0 where
  pub buf : List ℕ
  pub r : ℕ
  pub w : ℕ

-- Go's `copy(xs[i:], p)`: it stops at the end of `xs`.
unfoldable pub copy_at : List ℕ → ℕ → List ℕ → List ℕ
copy_at [] i p = []
copy_at (x ∷ xs) zero [] = x ∷ xs
copy_at (x ∷ xs) zero (b ∷ bs) = b ∷ copy_at xs zero bs
copy_at (x ∷ xs) (suc i) p = x ∷ copy_at xs i p

-- `xs[i:j]`, which is out of bounds where j is below i or past the end.
unfoldable pub slice_of : List ℕ → ℕ → ℕ → Result (List ℕ)
slice_of xs i j =
    if ltb j i then panic else (if ltb (length xs) j then panic else ok (drop i (take j xs)))

unfoldable pub grow : ℕ → Buf → Buf
grow n b = if leb n (length b.buf) then b else record b { buf = copy_at (replicate n 0) 0 b.buf }

-- The space for `n` bytes more.
unfoldable pub make_room : ℕ → Buf → Buf
unfolding grow
make_room n b = if ltb (length b.buf) (b.w + n) then grow (b.w + n) b else b

unfoldable pub write : List ℕ → Buf → Buf
unfolding make_room copy_at
write p b =
    let roomy = make_room (length p) b in
    record roomy { buf = copy_at roomy.buf roomy.w p; w = roomy.w + length p }

-- `Bytes` shows what `Read` has not consumed.
unfoldable pub bytes : Buf → Result (List ℕ)
unfolding slice_of
bytes b = slice_of b.buf b.r b.w

-- `Read` into a slice of `n` bytes; it reports no end of file.
unfoldable pub read : ℕ → Buf → Result (List ℕ × Buf)
unfolding bytes
read n b = do rest ← bytes b; ok (take n rest, record b { r = b.r + length (take n rest) })

unfoldable pub allocate : ℕ → Buf → Buf
unfolding make_room
allocate n b = make_room n b

-- The caller's `copy` into the slice that `Allocate` returned.
unfoldable pub fill : List ℕ → Buf → Buf
unfolding copy_at
fill p b = record b { buf = copy_at b.buf b.w p }

unfoldable pub commit : ℕ → Buf → Buf
commit n b = record b { w = b.w + n }

-- `SeekWrite` returns the old write position.
unfoldable pub seek_write : ℕ → Buf → ℕ × Buf
seek_write n b = (b.w, record b { w = n })

unfoldable pub reset : Buf → Buf
reset b = record b { r = 0; w = 0 }

-- `b.Copy(other)`, which leaves `b` as it is.
unfoldable pub copy : Buf → Buf → Result Buf
unfolding bytes allocate fill commit
copy b other = do p ← bytes b; ok (commit (length p) (fill p (allocate (b.w - b.r) other)))

-- The free buffers; a buffer that the program uses is not among them.
pub record Pool : Type 0 where
  pub bufs : List Buf

abbrev pub new_buf : Buf
new_buf = record { buf = replicate 1024 0; r = 0; w = 0 }

unfoldable pub get_from : List Buf → Buf × Pool
get_from [] = (new_buf, record { bufs = [] })
get_from (b ∷ bs) = (b, record { bufs = bs })

unfoldable pub get : Pool → Buf × Pool
unfolding get_from
get p = get_from p.bufs

unfoldable pub put : Buf → Pool → Pool
unfolding reset
put b p = record p { bufs = p.bufs ++ (reset b ∷ []) }
