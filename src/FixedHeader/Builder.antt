-- ===== src/FixedHeader/Builder.antt =====
-- Class `FHBuilder`, src/mqtt_fixed_header.cpp: the first byte of the header that it builds, a
-- `uint8_t`. A chain of calls is the composition of these functions, and `Build` returns the byte.
use mqtt_broker.Common.{ℕ, ◌*◌, ◌%◌, bit_or}

unfoldable pub start : ℕ
start = 0

unfoldable pub packet_type : ℕ → ℕ → ℕ
packet_type type first = bit_or first (type * 16) % 256

unfoldable pub with_dup : ℕ → ℕ
with_dup first = bit_or first 0x08 % 256

unfoldable pub with_qos : ℕ → ℕ → ℕ
with_qos qos first = bit_or first (qos * 2) % 256

unfoldable pub with_retain : ℕ → ℕ
with_retain first = bit_or first 0x01 % 256
