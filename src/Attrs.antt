-- ===== src/Attrs.antt =====
-- bitmap4.go, fileid.go and attrs.go: sets of attributes, file ids, and the attributes of files.
pub mod Bitmap
pub mod Numbers
pub mod Record
pub mod Decode
pub mod Values
pub mod Encode
pub mod FileId
pub mod Bounds
