-- ===== src/Coder.antt =====
-- The arithmetic coder, `src/arithmetic_coder.rs`: a frequency model, an encoder and a decoder of
-- 31 bits. A symbol is a byte. The counters are `u64`: counts of symbols, which stay below that
-- width for every input that fits into memory. The pending bits are `u32`, which wraps around.
pub mod Model
pub mod Interval
pub mod Encoder
pub mod Decoder
pub mod Stream
pub mod RoundTrip
pub mod Fuel
mod Runs
use alice_text.Prelude.{ℕ}

-- `WHOLE`, `HALF`, `QUARTER` and `THREE_QUARTERS` of `PRECISION_BITS = 31`.
abbrev pub precision_bits : ℕ
precision_bits = 31

abbrev pub whole : ℕ
whole = 0x80000000

abbrev pub half : ℕ
half = 0x40000000

abbrev pub quarter : ℕ
quarter = 0x20000000

abbrev pub three_quarters : ℕ
three_quarters = 0x60000000
