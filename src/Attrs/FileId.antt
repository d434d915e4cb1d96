-- ===== src/Attrs/FileId.antt =====
-- fileid.go: the id of an open file within a state id.
use nfs4go.Common.{ℕ, ◌+◌, ◌*◌, ◌/◌, ◌%◌, ◌^◌, ◌<◌, ◌≡◌, arith}

unfoldable pub file_other : ℕ → ℕ → ℕ × ℕ × ℕ
file_other id client_seq_id = (id / 2 ^ 32 % 2 ^ 32, id % 2 ^ 32, client_seq_id)

-- `uint64(fileOther[0])<<32 + uint64(fileOther[1])`.
unfoldable pub file_id : ℕ × ℕ × ℕ → ℕ
file_id (high, low, client_seq_id) = (high * 2 ^ 32 % 2 ^ 64 + low) % 2 ^ 64

-- A file id of 64 bits comes back from the state id that carries it, whatever the sequence number of
-- the client, and the words of the state id are within 32 bits.
pub file_id-file_other :
    (id seq : ℕ)
    → id < 2 ^ 64
    → seq < 2 ^ 32
    → (file_id (file_other id seq) ≡ id)
      × ((file_other id seq).0 < 2 ^ 32)
      × ((file_other id seq).1 < 2 ^ 32)
      × ((file_other id seq).2 < 2 ^ 32)
unfolding file_id file_other
file_id-file_other id seq h k = omega arith
