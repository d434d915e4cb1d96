-- ===== src/Xdr.antt =====
-- xdr/: the encoding of the protocol messages. A byte is a number below 256, a reader is the list
-- of the bytes that are left, and a writer is the list of the bytes written.
pub mod Words
pub mod WordLaws
pub mod Layout
pub mod Codec
pub mod RoundTrip
pub mod Total
pub mod Writes
