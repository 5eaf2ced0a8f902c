-- ===== src/Chain/Copy.antt =====
-- The copy constructor of a chain.
use mqtt_broker.Common.{
  ℕ, zero, suc, ◌+◌, ◌%◌, ◌^◌, ◌<◌, ◌≡◌, ◌≢◌, refl, sym, ap, ◌∙◌, List, [], ◌∷◌, ◌++◌, length,
  append_assoc, append-nil, All, done, fault, arith, ◌==◌, false,
}
use mqtt_broker.Common.Bytes.{read_bytes}
use mqtt_broker.Entity.{
  Entity, byte_entity, two_byte_entity, four_byte_entity, string_entity, binary_data_entity,
  string_pair_entity, var_int_entity, DataType, get_type, size, string_size,
}
use mqtt_broker.Entity.Wire as EntityWire
use mqtt_broker.Property.{Property}
use mqtt_broker.Chain.{add_property, copy_entity, copy_loop, copy}
use mqtt_broker.Chain.RoundTrip.{Ascending, IsBefore, add_property-last, All-last}

-- A property that is no binary value.
abbrev pub IsCopied : Property → Type 0
IsCopied p = EntityWire.IsValid p.entity × (get_type p.entity ≢ DataType.binary_data)

copy_entity_lem :
    (e : Entity) → EntityWire.IsValid e → get_type e ≢ DataType.binary_data → copy_entity e ≡ done e
unfolding copy_entity get_type
copy_entity_lem (byte_entity v) h n = ap (λ (w : ℕ). done (byte_entity w)) (omega arith)
copy_entity_lem (two_byte_entity v) h n = ap (λ (w : ℕ). done (two_byte_entity w)) (omega arith)
copy_entity_lem (four_byte_entity v) h n = ap (λ (w : ℕ). done (four_byte_entity w)) (omega arith)
copy_entity_lem (string_entity s) h n = refl
copy_entity_lem (binary_data_entity d) h n = absurd (n refl)
copy_entity_lem (string_pair_entity s t) h n = refl
copy_entity_lem (var_int_entity v) h n = refl

copy_loop_lem :
    (ps chain : List Property) (n : ℕ)
    → All IsCopied ps
    → Ascending n ps
    → All (IsBefore n) chain
    → 0 < n
    → copy_loop ps chain ≡ done (chain ++ ps)
unfolding copy_loop
copy_loop_lem [] chain n c a b pos = ap done (sym (append-nil chain))
copy_loop_lem (p ∷ ps) chain n ((v, nb), c) (a, as') b pos =
    rw (copy_entity_lem p.entity v nb, nonzero, add_property-last chain p n b a)
      (copy_loop_lem ps (chain ++ (p ∷ [])) (p.id + 1) c as' (All-last chain p n b a) (omega arith)
        ∙ ap done (append_assoc chain (p ∷ []) ps))
  where
    nonzero : (p.id == 0) ≡ false
    nonzero = ground arith

-- A copy of a chain that is sorted by identifiers other than 0 and has values that fit their types,
-- none of them binary, is the chain itself.
pub copy_lem : (ps : List Property) → All IsCopied ps → Ascending 1 ps → copy ps ≡ done ps
unfolding copy
copy_lem ps c a = copy_loop_lem ps [] 1 c a tt (omega arith)

read_bytes_past : (n : ℕ) (d : List ℕ) → length d < n → read_bytes n d ≡ fault
unfolding read_bytes
read_bytes_past zero d h = absurd (omega arith)
read_bytes_past (suc n) [] h = refl
read_bytes_past (suc n) (b ∷ d) h = rw (read_bytes_past n d (omega arith))

copy_entity_binary : (d : List ℕ) → length d < 65534 → copy_entity (binary_data_entity d) ≡ fault
unfolding copy_entity size string_size
copy_entity_binary d h = rw (read_bytes_past ((2 + length d) % 2 ^ 32 % 2 ^ 16) d (omega arith))

copy_loop_fault :
    (ps qs chain : List Property) (n id : ℕ) (d : List ℕ)
    → All IsCopied ps
    → Ascending n ps
    → 0 < n
    → length d < 65534
    → copy_loop (ps ++ (record { id = id; entity = binary_data_entity d } ∷ qs)) chain ≡ fault
unfolding copy_loop
copy_loop_fault [] qs chain n id d c a pos h = rw (copy_entity_binary d h)
copy_loop_fault (p ∷ ps) qs chain n id d ((v, nb), c) (a, as') pos h =
    rw (copy_entity_lem p.entity v nb, nonzero)
      (copy_loop_fault ps qs (add_property p chain) (p.id + 1) id d c as' (omega arith) h)
  where
    nonzero : (p.id == 0) ≡ false
    nonzero = ground arith

-- A copy of a chain with a binary value of fewer than 65534 bytes reads past the end of that value,
-- where the properties before it are sorted, fit their types and are not binary.
pub copy_fault :
    (ps qs : List Property) (id : ℕ) (d : List ℕ)
    → All IsCopied ps
    → Ascending 1 ps
    → length d < 65534
    → copy (ps ++ (record { id = id; entity = binary_data_entity d } ∷ qs)) ≡ fault
unfolding copy
copy_fault ps qs id d c a h = copy_loop_fault ps qs [] 1 id d c a (omega arith) h
