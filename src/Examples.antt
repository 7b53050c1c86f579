-- ===== src/Examples.antt =====
-- Concrete runs of the programs, at which the hypotheses of the theorems hold.
mod Format
mod Player
mod Recorder
mod Session
mod Parent
mod Pairs
mod Zstd
mod Unzip
mod Waiting
mod Ending
mod Launching
mod Compressed
