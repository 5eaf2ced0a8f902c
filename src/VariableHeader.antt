-- ===== src/VariableHeader.antt =====
-- The variable headers: `IVariableHeader` and its subclasses, headers/mqtt_protocol.h and
-- src/mqtt_variable_header.cpp. `TypicalVH` is `PubackVH` under another name.
pub mod Serialize
pub mod Wire
pub mod Store
pub mod Size
pub mod Read
pub mod RoundTrip
pub mod Publish
use mqtt_broker.Common.{ℕ, ◌+◌, ◌%◌, ◌^◌, List, length}
use mqtt_broker.VarInt.{var_int_size}
use mqtt_broker.Entity.{string_size}
use mqtt_broker.Property.{Property}
use mqtt_broker.Chain.{get_size}

pub record ConnectVh : Type 0 where
  pub prot_name_len : ℕ
  pub name : List ℕ
  pub version : ℕ
  pub conn_flags : ℕ
  pub alive : ℕ

pub record ConnackVh : Type 0 where
  pub conn_acknowledge_flags : ℕ
  pub reason_code : ℕ
  pub p_chain : List Property

pub record DisconnectVh : Type 0 where
  pub reason_code : ℕ
  pub p_chain : List Property

pub record PublishVh : Type 0 where
  pub topic_name : List ℕ
  pub packet_id : ℕ
  pub p_chain : List Property

pub record SubscribeVh : Type 0 where
  pub packet_id : ℕ
  pub p_chain : List Property

pub record SubackVh : Type 0 where
  pub packet_id : ℕ
  pub p_chain : List Property
  pub reason_codes : List ℕ

pub record PubackVh : Type 0 where
  pub packet_id : ℕ
  pub reason_code : ℕ
  pub p_chain : List Property

pub record UnsubscribeVh : Type 0 where
  pub packet_id : ℕ
  pub p_chain : List Property

pub record UnsubackVh : Type 0 where
  pub packet_id : ℕ
  pub p_chain : List Property
  pub reason_codes : List ℕ

pub record TypicalV3Vh : Type 0 where
  pub packet_id : ℕ

pub record PublishV3Vh : Type 0 where
  pub topic_name : List ℕ
  pub packet_id : ℕ

-- The class hierarchy behind `VariableHeader`.
pub data VariableHeader : Type 0 where
  connect : ConnectVh → VariableHeader
  connack : ConnackVh → VariableHeader
  disconnect : DisconnectVh → VariableHeader
  publish : PublishVh → VariableHeader
  subscribe : SubscribeVh → VariableHeader
  suback : SubackVh → VariableHeader
  puback : PubackVh → VariableHeader
  unsubscribe : UnsubscribeVh → VariableHeader
  unsuback : UnsubackVh → VariableHeader
  typical_v3 : TypicalV3Vh → VariableHeader
  publish_v3 : PublishV3Vh → VariableHeader

-- `GetVarIntSize(p_chain.GetSize()) + p_chain.GetSize()`
abbrev pub chain_size : List Property → ℕ
chain_size ps = var_int_size (get_size ps) + get_size ps

-- `GetSize`, a `uint32_t`.
unfoldable pub size : VariableHeader → ℕ
size (connect vh) = 10
size (connack vh) = (2 + chain_size vh.p_chain) % 2 ^ 32
size (disconnect vh) = (1 + chain_size vh.p_chain) % 2 ^ 32
size (publish vh) = (string_size vh.topic_name + 2 + chain_size vh.p_chain) % 2 ^ 32
size (subscribe vh) = (2 + get_size vh.p_chain) % 2 ^ 32
size (suback vh) = (2 + chain_size vh.p_chain + length vh.reason_codes) % 2 ^ 32
size (puback vh) = (3 + chain_size vh.p_chain) % 2 ^ 32
size (unsubscribe vh) = (2 + chain_size vh.p_chain) % 2 ^ 32
size (unsuback vh) = (2 + chain_size vh.p_chain + length vh.reason_codes) % 2 ^ 32
size (typical_v3 vh) = 2
size (publish_v3 vh) = (string_size vh.topic_name + 2) % 2 ^ 32
