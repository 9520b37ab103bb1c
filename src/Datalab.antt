-- ===== src/Datalab.antt =====
-- datalab/bits.c and the reference solutions of datalab/tests.c: the bit puzzles, on `long` and on
-- the bit patterns of single precision floats.
pub mod Integers
pub mod Floats
pub mod Reference
mod Tests
