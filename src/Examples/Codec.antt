-- ===== src/Examples/Codec.antt =====
-- The theorems on numbers, properties, chains and headers at concrete values.
use mqtt_broker.Common.{
  zero, suc, ◌%◌, [], ◌∷◌, ◌++◌, length, ◌≡◌, ◌≢◌, refl, done, fault, out_of_fuel, arith,
}
use mqtt_broker.Common.Bytes.{convert_to_host_4_bytes}
use mqtt_broker.Common.Buffer.{emit}
use mqtt_broker.VarInt.{MqttErr, code_var_int, decode_var_int, decoded, read_variable_int}
use mqtt_broker.VarInt.RoundTrip.{decode_var_int-code_var_int}
use mqtt_broker.VarInt.Stream.{Agrees, read_variable_int-decode_var_int}
use mqtt_broker.Entity.Wire as EntityWire
use mqtt_broker.Property.{create_property, data_type_of, create_of_type}
use mqtt_broker.Property.Wire as PropertyWire
use mqtt_broker.Chain.{create, create_with, copy}
use mqtt_broker.Chain
use mqtt_broker.Chain.Wire as ChainWire
use mqtt_broker.Chain.RoundTrip.{create-encoding}
use mqtt_broker.Chain.Termination.{NeverZero, create_diverges, create_ends}
use mqtt_broker.Chain.Copy.{copy_fault}
use mqtt_broker.Examples.{
  two_properties, correlation_data, long_content_type, long_content_type-IsValid,
  two_properties-IsValid, two_properties-IsReadable,
}

decode_var_int-code_var_int_example :
    decode_var_int (code_var_int 321 ++ (9 ∷ [])) ≡ done (decoded 321 (length (code_var_int 321)))
decode_var_int-code_var_int_example = decode_var_int-code_var_int 321 (9 ∷ []) (omega arith)

read_variable_int-decode_var_int_example :
    Agrees
      (0xC1 ∷ 2 ∷ 5 ∷ [])
      0
      (decode_var_int (0xC1 ∷ 2 ∷ 5 ∷ []))
      (read_variable_int (0xC1 ∷ 2 ∷ 5 ∷ []))
read_variable_int-decode_var_int_example = read_variable_int-decode_var_int (0xC1 ∷ 2 ∷ 5 ∷ [])

serialize-emit_chain_example :
    Chain.serialize two_properties 0 (record { bytes = 0 ∷ []; offset = 0 })
    ≡ emit 0 (ChainWire.encoding two_properties) (record { bytes = 0 ∷ []; offset = 0 })
serialize-emit_chain_example =
    ChainWire.serialize-emit_chain two_properties 0 (record { bytes = 0 ∷ []; offset = 0 })
      two_properties-IsValid

create-encoding_example :
    create [] (ChainWire.encoding two_properties ++ (7 ∷ []))
    ≡ done (record {
      status = MqttErr.ok;
      chain = two_properties;
      size = length (ChainWire.encoding two_properties);
    })
create-encoding_example =
    create-encoding two_properties [] (7 ∷ []) two_properties-IsReadable.valid
      two_properties-IsReadable.short two_properties-IsReadable.sorted

long_chain-IsValid : ChainWire.IsValid (long_content_type ∷ [])
unfolding EntityWire.encoding
long_chain-IsValid = record { typed = (long_content_type-IsValid, tt); fits = omega arith }

long_size : length (PropertyWire.encoding long_content_type) % 256 ≡ 0
unfolding EntityWire.encoding
long_size = refl

create_diverges_example :
    create_with 1000 [] (ChainWire.encoding (long_content_type ∷ []) ++ []) ≡ out_of_fuel
create_diverges_example =
    create_diverges 1000 [] long_content_type [] [] long_chain-IsValid long_size

-- REQUEST_PROBLEM_INFORMATION.
short_buffer : NeverZero (2 ∷ 0x17 ∷ 1 ∷ [])
unfolding create_property data_type_of create_of_type convert_to_host_4_bytes
short_buffer zero p = λ e. cc
short_buffer (suc zero) p = λ e. cc
short_buffer (suc (suc zero)) p = λ e. cc
short_buffer (suc (suc (suc zero))) p = λ e. cc
short_buffer (suc (suc (suc (suc k)))) p = λ e. cc

create_ends_example : create [] (2 ∷ 0x17 ∷ 1 ∷ []) ≢ out_of_fuel
create_ends_example = create_ends [] (2 ∷ 0x17 ∷ 1 ∷ []) short_buffer (omega arith)

copy_fault_example : copy ([] ++ (correlation_data ∷ [])) ≡ fault
copy_fault_example = copy_fault [] [] 9 (1 ∷ 2 ∷ []) tt tt (omega arith)
