-- ===== src/Mux/Output.antt =====
-- mux_v4.go: the header of a reply, and the reply of one operation. The encoder's several calls of
-- `Write` are one call with all their bytes.
use nfs4go.Common.{ℕ, ◌&&◌, ◌==◌, if◌then◌else◌, Result, ok, ◌>>=◌}
use nfs4go.Bufpool.{Buf, write, seek_write}
use nfs4go.Xdr.Layout.{Fields, Vals, ◌▸◌, uint32, text, end}
use nfs4go.Xdr.Codec.{encode_all}
use nfs4go.Msg.Types.{auth}
use nfs4go.Msg.Status.{nfs4_ok}
use nfs4go.Mux.State.{Request, Handler}

-- `ACCEPT_SUCCESS`.
abbrev pub accept_success : ℕ
accept_success = 0

abbrev pub header_fields : Fields
header_fields = auth ▸ uint32 ▸ uint32 ▸ text ▸ uint32 ▸ end

abbrev pub header : Request → ℕ → ℕ → Vals header_fields
header req ops_count last_status =
    (req.auth_resp, (accept_success, (last_status, (req.tag, (ops_count, tt)))))

-- `EncodeAll` into the buffer.
unfoldable pub write_all : (fs : Fields) → Vals fs → Buf → Result Buf
write_all fs vs out = do bs ← encode_all fs vs; ok (write bs out)

unfoldable pub write_header : Request → ℕ → ℕ → Buf → Result Buf
unfolding write_all
write_header req ops_count last_status out =
    write_all header_fields (header req ops_count last_status) out

abbrev pub op_fields : Fields
op_fields = uint32 ▸ uint32 ▸ end

unfoldable pub write_header_and_single_operation : Request → ℕ → ℕ → Buf → Result Buf
unfolding write_header write_all
write_header_and_single_operation req op status out = do
  out' ← write_header req 1 status out
  write_all op_fields (op, (status, tt)) out'

-- The header is written over the first one, if that has another status or another count.
unfoldable pub rewrite_header_if_needed : Request → ℕ → ℕ → Buf → Result Buf
unfolding write_header
rewrite_header_if_needed req ops_count last_status out =
    if last_status == nfs4_ok && ops_count == req.ops_count then ok out else (do
      out' ← write_header req ops_count last_status (seek_write 0 out).1
      ok (seek_write out.w out').1)

unfoldable pub operation_response : ℕ → ℕ → (fs : Fields) → Vals fs → Buf → Result (ℕ × Buf)
unfolding write_all
operation_response op status fs vs out = do
  out' ← write_all op_fields (op, (status, tt)) out
  out'' ← write_all fs vs out'
  ok (status, out'')

-- The reply of an operation, as the last step of its handler.
unfoldable pub answer : {F : Type 0} → ℕ → ℕ → (fs : Fields) → Vals fs → Handler F
unfolding operation_response
answer op status fs vs st = do
  (status', out') ← operation_response op status fs vs st.out
  ok (status', record st { out = out' })

-- A reply with no data.
abbrev pub plain : {F : Type 0} → ℕ → ℕ → Handler F
plain op status st = answer op status end tt st
