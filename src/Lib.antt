-- ===== src/Lib.antt =====
-- An MQTT 5 broker: its packets, topics, clients and the handlers of packets.
--
-- The program is a broker that keeps its clients, subscriptions and retained messages in memory. A
-- packet is a fixed header, a variable header with a chain of properties, and a payload. A handler
-- takes a packet apart with the constructors and `ReadFromBuf` methods of the variable header, and
-- answers with a packet that `CreateMqttPacket` makes of the `Serialize` methods.
--
-- The files and the code that each models:
--   VarInt           CodeVarInt, DeCodeVarInt, GetVarIntSize, ReadVariableInt of
--                    src/mqtt_protocol.cpp
--   Common.Bytes     ConvertToHost2Bytes, ConvertToHost4Bytes of src/functions.cpp
--   Entity           MqttEntity and its subclasses, src/mqtt_protocol.cpp
--   Property         MqttProperty and CreateProperty, src/mqtt_protocol.cpp
--   Chain            MqttPropertyChain, src/mqtt_protocol.cpp
--   FixedHeader      FixedHeader and FHBuilder, src/mqtt_fixed_header.cpp, and
--                    Broker::ReadFixedHeader, src/broker.cpp
--   VariableHeader   the subclasses of IVariableHeader, src/mqtt_variable_header.cpp
--   Packet           the three functions CreateMqttPacket, src/mqtt_protocol.cpp
--   Handlers         HandleMqttPublish, HandleMqttSubscribe, HandleMqttPuback,
--                    HandleMqttUnsubscribe and HandleMqttPubrel, src/handlers.cpp
--   Connect          HandleMqttConnect of src/handlers.cpp, CreateMqttStringEntity and
--                    CreateMqttBinaryDataEntity of src/mqtt_protocol.cpp
--   Topic            MqttTopic, src/mqtt_topic.cpp; below it Filter (tokenize of
--                    src/functions.cpp, the loops of Client::checkWildCards and of
--                    CTopicStorage::GetMatchedTopics) and Storage (src/topic_storage.cpp)
--   Client           Client, src/client.cpp
--   Broker           the tables, postponed events, NotifyClients and NotifyClient of
--                    src/broker.cpp; below it Tables (AddClient, DelClient, CloseConnection,
--                    CheckClientID and GetClientFd)
--   PacketHandlers   the handlers of src/mqtt_packet_handler.cpp, below it Accept (CONNECT) and
--                    Dispatch, and the steps that all threads make on the broker
--   Sockets          WriteData and ReadData of src/functions.cpp
--   ErrorHandlers    src/mqtt_error_handler.cpp
--   Senders          Commands and FdWriteCommand of src/command.cpp, SenderThread of
--                    src/broker.cpp
--   Server           ServerThread of src/broker.cpp, the loop of src/main.cpp; below it Qos
--                    (QoSThread)
--   Lifecycle        the threads of src/main.cpp and of src/broker.cpp beside each other: AddClient,
--                    Start and the states of the server, step by step
--   Examples         the theorems at concrete packets
-- In each, the file of the component has the definitions, and the files below it the theorems, on
-- the wire format (Wire, Store), sizes (Size), reading after writing (RoundTrip, Publish), loops
-- (Termination), copies (Copy), who gets a message (Delivery, Published), what all steps keep (Steps,
-- Single) and what can go wrong between the threads (Crash, Overrun, Races).
--
-- How the code is represented:
--   A byte is a number, a `uint8_t *` that is read is the list of the bytes from it to the end of
--   its block, and a block that is written is a list with a position. An access outside a block is
--   the result `fault`, a failed `assert` is `abort`. Machine words wrap with `% 2 ^ w` where the
--   code can make them wrap.
--   A `std::map` or a `std::set` is the list of its entries in their order; an unordered map is a
--   list of its entries in any order.
--   The clients are objects that the two tables of the broker point to; a weak pointer gives the
--   object while the table of clients holds it.
--   The locks of the broker are left out: each method is one step.
--   What `new uint8_t[n]` returns is the parameter `fresh`, of which only the length is known.
--   A socket that is read is the list of the bytes that will arrive.
--   A shared pointer to a value that nobody changes is the value. Moves are copies.
--   What the system calls give (poll, read, write, select, time) is an argument, call by call.
--   The server handles its sockets in rounds; the queue that it fills and the sender threads that
--   empty it are a machine of their own (Senders), which knows the packets and not the tables.
--
-- Fuel: the loop of CodeVarInt and of GetVarIntSize has five rounds, which are enough for a
-- `uint32_t`; the loop of MqttPropertyChain::Create has one round more than the buffer has bytes;
-- the loops of HandleMqttSubscribe and HandleMqttUnsubscribe have one more than the packet has.
-- A loop that used up its fuel gives `out_of_fuel`, which no finished run does.
--
-- Not modelled: logging, configuration, the set-up of the sockets, the condition variable of the
-- command queue, and the data races between the main thread and the server on the table of clients.
pub mod Common
pub mod VarInt
pub mod Entity
pub mod Property
pub mod Chain
pub mod FixedHeader
pub mod VariableHeader
pub mod Packet
pub mod Handlers
pub mod Topic
pub mod Client
pub mod Broker
pub mod Examples
pub mod Connect
pub mod ErrorHandlers
pub mod Lifecycle
pub mod PacketHandlers
pub mod Senders
pub mod Server
pub mod Sockets
