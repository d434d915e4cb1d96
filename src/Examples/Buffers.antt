-- ===== src/Examples/Buffers.antt =====
-- Inputs of bufpool/ at which its theorems are applied.
use nfs4go.Common.{◌≡◌, [], ◌∷◌, ◌++◌, arith, ok, take, drop}
use nfs4go.Bufpool.{Buf, write, read, copy}
use nfs4go.Bufpool.Contents.{IsValid, contents, contents-write, contents-read, contents-copy}

-- Two bytes of three are written, one of them is read.
abbrev half_read : Buf
half_read = record { buf = 4 ∷ 5 ∷ 6 ∷ []; r = 1; w = 2 }

half_read-IsValid : IsValid half_read
half_read-IsValid = omega arith

contents-write_example :
    IsValid (write (7 ∷ 8 ∷ 9 ∷ []) half_read)
    × (contents (write (7 ∷ 8 ∷ 9 ∷ []) half_read) ≡ contents half_read ++ 7 ∷ 8 ∷ 9 ∷ [])
    × ((write (7 ∷ 8 ∷ 9 ∷ []) half_read).r ≡ half_read.r)
contents-write_example = contents-write (7 ∷ 8 ∷ 9 ∷ []) half_read half_read-IsValid

contents-read_example :
    (b' : Buf) × (read 4 half_read ≡ ok (take 4 (contents half_read), b'))
    × IsValid b'
    × (contents b' ≡ drop 4 (contents half_read))
contents-read_example = contents-read 4 half_read half_read-IsValid

contents-copy_example :
    (other' : Buf) × (copy half_read half_read ≡ ok other')
    × IsValid other'
    × (contents other' ≡ contents half_read ++ contents half_read)
    × (other'.r ≡ half_read.r)
contents-copy_example = contents-copy half_read half_read half_read-IsValid half_read-IsValid
