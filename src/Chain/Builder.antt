-- ===== src/Chain/Builder.antt =====
-- Class `MqttPropertyChainBuilder`, src/mqtt_protocol.cpp. A chain of calls is the composition of
-- these functions, and `build` returns the chain.
use mqtt_broker.Common.{ℕ, ◌%◌, ◌^◌, List, []}
use mqtt_broker.Entity.{byte_entity, four_byte_entity, string_entity}
use mqtt_broker.Property.{Property}
use mqtt_broker.Chain.{add_property}

unfoldable pub start : List Property
start = []

unfoldable pub with_client_identifier : List ℕ → List Property → List Property
with_client_identifier id = add_property (record { id = 0x12; entity = string_entity id })

unfoldable pub with_retain_available : ℕ → List Property → List Property
with_retain_available value =
    add_property (record { id = 0x25; entity = byte_entity (value % 2 ^ 8) })

unfoldable pub with_max_pocket_size : ℕ → List Property → List Property
with_max_pocket_size max_pocket_size =
    add_property (record { id = 0x27; entity = four_byte_entity (max_pocket_size % 2 ^ 32) })

unfoldable pub with_wild_card : ℕ → List Property → List Property
with_wild_card value = add_property (record { id = 0x28; entity = byte_entity (value % 2 ^ 8) })

unfoldable pub with_shared_sub_available : ℕ → List Property → List Property
with_shared_sub_available value =
    add_property (record { id = 0x2A; entity = byte_entity (value % 2 ^ 8) })
