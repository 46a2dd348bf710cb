-- ===== src/Tests.antt =====
-- Runs of the modelled code on small inputs, and the theorems at inputs that meet their hypotheses.
mod Buffer
mod Lang
mod Trx
mod Validate
mod Clog
mod Pages
mod Scan
mod Index
mod Entries
