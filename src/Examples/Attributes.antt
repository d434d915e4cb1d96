-- ===== src/Examples/Attributes.antt =====
-- File ids and sets of attributes at which their theorems are applied.
use nfs4go.Common.{ℕ, ◌+◌, ◌^◌, ◌<◌, ◌≡◌, refl, true, List, [], ◌∷◌, length, arith, ok, panic}
use nfs4go.Attrs.FileId.{file_other, file_id, file_id-file_other}
use nfs4go.Attrs.Bitmap.{bitmap4_encode, bitmap4_decode}
use nfs4go.Attrs.Bounds.{bitmap4_encode-decode_keys, bitmap4_encode_panics}

file_id-file_other_example :
    (file_id (file_other (2 ^ 40 + 3) 9) ≡ 2 ^ 40 + 3)
    × ((file_other (2 ^ 40 + 3) 9).0 < 2 ^ 32)
    × ((file_other (2 ^ 40 + 3) 9).1 < 2 ^ 32)
    × ((file_other (2 ^ 40 + 3) 9).2 < 2 ^ 32)
file_id-file_other_example = file_id-file_other (2 ^ 40 + 3) 9 (omega arith) (omega arith)

-- What a request for two attributes decodes to.
abbrev asked : List ℕ
asked = 10 ∷ []

bitmap4_encode-decode_keys_example :
    (rs : List ℕ) × (bitmap4_encode (bitmap4_decode asked) ≡ ok rs) × (length rs ≡ 1)
bitmap4_encode-decode_keys_example = bitmap4_encode-decode_keys (bitmap4_decode asked) asked refl

-- The set of the attribute 0 alone.
bitmap4_encode_panics_example : bitmap4_encode ((0, true) ∷ []) ≡ panic
bitmap4_encode_panics_example = bitmap4_encode_panics 0 [] tt
