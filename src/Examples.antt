-- ===== src/Examples.antt =====
-- Runs of the modelled code, and the theorems at inputs that meet their hypotheses.
mod Codec
mod Buffers
mod Clients
mod Compounds
mod Served
mod Returns
mod Attributes
mod Workers
mod Files
