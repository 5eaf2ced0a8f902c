-- ===== src/FixedHeader/Fields.antt =====
-- The fields of the first byte against the builder that sets them.
use mqtt_broker.Common.{
  ℕ, ◌+◌, ◌*◌, ◌/◌, ◌%◌, ◌<◌, ◌≡◌, refl, bit_and, Bool, true, false, not, ◌==◌, ==_iff,
  if◌then◌else◌, ◌∙◌, arith,
}
use mqtt_broker.Common.Bits.{all_below, all_below_sound}
use mqtt_broker.FixedHeader.{FixedHeader, is_dup, qos, is_retain, get_type}
use mqtt_broker.FixedHeader.Builder

qos_table : all_below 256 (λ b. bit_and b 0x06 == b / 2 % 4 * 2) ≡ true
unfolding all_below
qos_table = refl

dup_table : all_below 256 (λ b. bit_and b 0x08 == b / 8 % 2 * 8) ≡ true
unfolding all_below
dup_table = refl

retain_table : all_below 256 (λ b. bit_and b 0x01 == b % 2) ≡ true
unfolding all_below
retain_table = refl

flags_table : all_below 256 (λ b. bit_and b 0x0F == b % 16) ≡ true
unfolding all_below
flags_table = refl

eq_below : (n : ℕ) (f g : ℕ → ℕ) (x : ℕ) → all_below n (λ b. f b == g b) ≡ true → x < n → f x ≡ g x
eq_below n f g x t h = (==_iff _ _).0 (all_below_sound n (λ b. f b == g b) x t h)

-- The first byte for a type below 16 and a quality of service below 4; `x` is both numbers in one.
type_qos_table :
    all_below 64 (λ x.
      Builder.with_qos (x % 4) (Builder.packet_type (x / 4) Builder.start)
      == x / 4 * 16 + x % 4 * 2)
    ≡ true
unfolding all_below Builder.with_qos Builder.packet_type Builder.start
type_qos_table = refl

pub first_byte :
    (t q : ℕ)
    → t < 16
    → q < 4
    → Builder.with_qos q (Builder.packet_type t Builder.start) ≡ t * 16 + q * 2
first_byte t q ht hq =
    rw (quotient, remainder) at
      (eq_below 64 (λ x. Builder.with_qos (x % 4) (Builder.packet_type (x / 4) Builder.start))
        (λ x. x / 4 * 16 + x % 4 * 2) (t * 4 + q) type_qos_table (omega arith))
  where
    quotient : (t * 4 + q) / 4 ≡ t
    quotient = omega arith

    remainder : (t * 4 + q) % 4 ≡ q
    remainder = omega arith

set_dup_table : all_below 256 (λ b. Builder.with_dup b == b / 16 * 16 + 8 + b % 8) ≡ true
unfolding all_below Builder.with_dup
set_dup_table = refl

set_retain_table : all_below 256 (λ b. Builder.with_retain b == b / 2 * 2 + 1) ≡ true
unfolding all_below Builder.with_retain
set_retain_table = refl

pub qos_of : (b len : ℕ) → b < 256 → qos (record { first = b; remaining_len = len }) ≡ b / 2 % 4
unfolding qos
qos_of b len h =
    omega (arith, eq_below 256 (λ b. bit_and b 0x06) (λ b. b / 2 % 4 * 2) b qos_table h)

pub get_type_of : (b len : ℕ) → get_type (record { first = b; remaining_len = len }) ≡ b / 16
unfolding get_type
get_type_of b len = refl

is_dup_of :
    (b len : ℕ)
    → b < 256
    → is_dup (record { first = b; remaining_len = len }) ≡ not (b / 8 % 2 == 0)
unfolding is_dup
is_dup_of b len h =
    ground (arith, eq_below 256 (λ b. bit_and b 0x08) (λ b. b / 8 % 2 * 8) b dup_table h)

is_retain_of :
    (b len : ℕ) → b < 256 → is_retain (record { first = b; remaining_len = len }) ≡ not (b % 2 == 0)
unfolding is_retain
is_retain_of b len h =
    ground (arith, eq_below 256 (λ b. bit_and b 0x01) (λ b. b % 2) b retain_table h)

-- A first byte with all the fields of the builder, where `dup` and `retain` say whether those
-- methods are called.
abbrev pub built : ℕ → ℕ → Bool → Bool → ℕ
built t q dup retain =
    let b = Builder.with_qos q (Builder.packet_type t Builder.start) in
    let b' = if dup then Builder.with_dup b else b in if retain then Builder.with_retain b' else b'

-- The first byte that the builder makes for a type below 16 and a quality of service below 4 has
-- the type, the quality of service and the two flags that it was given.
pub built_fields :
    (t q len : ℕ) (dup retain : Bool)
    → t < 16
    → q < 4
    → let h : FixedHeader = record { first = built t q dup retain; remaining_len = len } in
      (get_type h ≡ t) × (qos h ≡ q) × (is_dup h ≡ dup) × (is_retain h ≡ retain)
built_fields t q len dup retain ht hq = rw (first_byte t q ht hq) (fields dup retain)
  where
    b : ℕ
    b = t * 16 + q * 2

    with_dup_b : Builder.with_dup b ≡ b + 8
    with_dup_b =
        eq_below 256 Builder.with_dup (λ b. b / 16 * 16 + 8 + b % 8) b set_dup_table (omega arith)
        ∙ omega arith

    with_retain_of : (c : ℕ) → c < 256 → Builder.with_retain c ≡ c / 2 * 2 + 1
    with_retain_of c h = eq_below 256 Builder.with_retain (λ b. b / 2 * 2 + 1) c set_retain_table h

    fields_of :
        (c : ℕ)
        → c < 256
        → c / 16 ≡ t
        → c / 2 % 4 ≡ q
        → let h : FixedHeader = record { first = c; remaining_len = len } in
          (get_type h ≡ t)
          × (qos h ≡ q)
          × (is_dup h ≡ not (c / 8 % 2 == 0))
          × (is_retain h ≡ not (c % 2 == 0))
    fields_of c h p r =
        (get_type_of c len ∙ p, qos_of c len h ∙ r, is_dup_of c len h, is_retain_of c len h)

    fields :
        (dup retain : Bool)
        → let c =
            if retain
            then Builder.with_retain (if dup then Builder.with_dup b else b)
            else (if dup then Builder.with_dup b else b) in
          let h : FixedHeader = record { first = c; remaining_len = len } in
          (get_type h ≡ t) × (qos h ≡ q) × (is_dup h ≡ dup) × (is_retain h ≡ retain)
    fields false false = ground (arith, fields_of b)
    fields true false = rw with_dup_b (ground (arith, fields_of (b + 8)))
    fields false true =
        rw (with_retain_of b (omega arith)) (ground (arith, fields_of (b / 2 * 2 + 1)))
    fields true true =
        rw (with_dup_b, with_retain_of (b + 8) (omega arith))
          (ground (arith, fields_of ((b + 8) / 2 * 2 + 1)))
