-- ===== src/Examples.antt =====
-- The theorems at concrete packets, and the data that these share.
pub mod Codec
pub mod Packets
pub mod State
pub mod Threads
pub mod Rounds
pub mod Delivery
pub mod Lifecycle
pub mod Connections
use mqtt_broker.Common.{
  ℕ, List, [], ◌∷◌, length, replicate, length-replicate, ◌≡◌, ◌<◌, refl, All, arith,
}
use mqtt_broker.Entity.{two_byte_entity, string_entity, binary_data_entity, get_type}
use mqtt_broker.Entity.Wire as EntityWire
use mqtt_broker.Property.{Property, data_type_of}
use mqtt_broker.Property.Wire as PropertyWire
use mqtt_broker.Chain.Wire as ChainWire
use mqtt_broker.Chain.RoundTrip.{Ascending, IsShort}
use mqtt_broker.Chain.Copy.{IsCopied}
use mqtt_broker.VariableHeader.{PublishVh}
use mqtt_broker.VariableHeader.RoundTrip.{IsReadable}

-- A new block of zeros.
abbrev pub zeros : ℕ → List ℕ
zeros n = replicate n 0

pub zeros_size : (n : ℕ) → length (zeros n) ≡ n
zeros_size n = length-replicate n 0

-- CONTENT_TYPE "ab" and RECEIVE_MAXIMUM 20.
abbrev pub content_type : Property
content_type = record { id = 0x03; entity = string_entity (97 ∷ 98 ∷ []) }

abbrev pub receive_maximum : Property
receive_maximum = record { id = 0x21; entity = two_byte_entity 20 }

abbrev pub two_properties : List Property
two_properties = content_type ∷ receive_maximum ∷ []

-- CORRELATION_DATA, a binary value.
abbrev pub correlation_data : Property
correlation_data = record { id = 0x09; entity = binary_data_entity (1 ∷ 2 ∷ []) }

-- CONTENT_TYPE of 253 bytes: 256 bytes on the wire.
abbrev pub long_content_type : Property
long_content_type = record { id = 0x03; entity = string_entity (replicate 253 97) }

pub content_type-IsValid : PropertyWire.IsValid content_type
unfolding data_type_of get_type
content_type-IsValid = record { typed = refl; fits = omega arith }

pub receive_maximum-IsValid : PropertyWire.IsValid receive_maximum
unfolding data_type_of get_type
receive_maximum-IsValid = record { typed = refl; fits = omega arith }

pub long_content_type-IsValid : PropertyWire.IsValid long_content_type
unfolding data_type_of get_type
long_content_type-IsValid = record { typed = refl; fits = omega arith }

pub two_properties-IsValid : ChainWire.IsValid two_properties
unfolding EntityWire.encoding
two_properties-IsValid = record {
  typed = (content_type-IsValid, (receive_maximum-IsValid, tt));
  fits = omega arith;
}

pub two_properties-IsReadable : IsReadable two_properties
unfolding EntityWire.encoding
two_properties-IsReadable = record {
  valid = two_properties-IsValid;
  short = (omega arith, (omega arith, tt));
  sorted = (omega arith, (omega arith, tt));
}

pub two_properties-IsCopied : All IsCopied two_properties
unfolding get_type
two_properties-IsCopied = ((omega arith, λ e. cc), ((omega arith, λ e. cc), tt))

pub two_properties-Ascending : Ascending 1 two_properties
two_properties-Ascending = (omega arith, (omega arith, tt))

-- Topic "a/b", with and without a packet identifier.
abbrev pub publish_7 : PublishVh
publish_7 = record { topic_name = 97 ∷ 47 ∷ 98 ∷ []; packet_id = 7; p_chain = two_properties }

abbrev pub publish_0 : PublishVh
publish_0 = record { topic_name = 97 ∷ 47 ∷ 98 ∷ []; packet_id = 0; p_chain = two_properties }

abbrev pub message : List ℕ
message = 104 ∷ 105 ∷ []
