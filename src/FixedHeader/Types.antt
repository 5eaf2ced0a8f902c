-- ===== src/FixedHeader/Types.antt =====
-- `mqtt_pack_type_enum`, headers/mqtt_protocol.h.
use mqtt_broker.Common.{ℕ}

pub data PackType : Type 0 where
  reserved connect connack publish puback pubrec pubrel pubcomp : PackType
  subscribe suback unsubscribe unsuback pingreq pingresp disconnect auth : PackType

-- The number of the enumerator.
abbrev pub code : PackType → ℕ
code reserved = 0
code connect = 1
code connack = 2
code publish = 3
code puback = 4
code pubrec = 5
code pubrel = 6
code pubcomp = 7
code subscribe = 8
code suback = 9
code unsubscribe = 10
code unsuback = 11
code pingreq = 12
code pingresp = 13
code disconnect = 14
code auth = 15
