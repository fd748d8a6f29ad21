-- ===== src/Lib.antt =====
-- Verification of the IoT firmware: smart-meter nodes read a meter, send each reading over ESP-NOW
-- to a substation, and the substation buffers it and relays it over LoRa to a gateway.
--
-- Parts, and how they meet:
-- - Wire: lib/interfaces/shared/shared_payload.h, the packed structs as bytes (Payload, AckPayload,
--   LinkFrame), link frames and UIDs. Every link uses them.
-- - Buffer: lib/buffering/reading_buffer, the substation's eight rings of 288 readings, drained by
--   peek and pop in rotation. Buffer/Ring and Buffer/Refine see it as one bounded queue for each UID.
-- - LoraLink: lib/links/lora_link, the acknowledged and retried send over LoRa (beginSend, pollSend,
--   sendPacket) and the receiving side (receivePacket).
-- - Substation: src/nodes/substation.cpp, the loop: beacon, joined nodes, readings that come in and
--   are acknowledged, and the relay from Buffer through LoraLink.
-- - StationSetup: substationSetup, the settings at the start of gatewaySetup, and src/lora_main.cpp, which
--   picks one; StationSetup/Coherent is a substation from its start on.
-- - SubstationLink: lib/links/substation_link, a node's side: it waits for a beacon, joins, sends a
--   reading, waits for the acknowledgement and joins again.
-- - Config, NvsConfig: lib/config, the structs, and the settings in flash over the Preferences library
--   as a parameter; NvsConfig/Console is the command handler at the serial port, NvsConfig/Loaders the
--   loaders, and NvsConfig/Memory a library that meets the assumptions.
-- - NodeSetup: the set-ups in src/nodes of the RS485, optical and camera nodes, from Loaders to BringUp,
--   and src/end_node_main.cpp, which picks one.
-- - MeterGate: the class of lib/bringup/end_node_bringup that says when a node may read its meter.
-- - Node: src/nodes/rs485_node.cpp, the loop of a node that reads, sends and sleeps, with seqNext of
--   lib/buffering/seq_counter.
-- - SeqCounter: lib/buffering/seq_counter with its number in flash, over restarts of a node;
--   SeqCounter/Delivered puts it under the substation.
-- - Polling: src/nodes/cv_node.cpp and src/nodes/ir_node.cpp, the loops of the nodes that read and send
--   once in a cycle; Polling/Optical puts the optical reader under the second one.
-- - BringUp: endNodeBringUp of lib/bringup/end_node_bringup with seqCounterBegin, a node's start.
-- - Handshake: a node's link and the substation together, what the one answers and the other waits for.
-- - Gateway: src/nodes/gateway.cpp, the LoRa task and the publishing loop as steps over one queue;
--   Gateway/Network is its waits for Wi-Fi and the broker.
-- - PayloadJson: lib/protocols/payload_json, the timestamp and the fields that the gateway publishes.
-- - EspNow: lib/links/esp_now_uplink, the callbacks, sendPacket and receivePacket.
-- - WifiRadio: lib/links/wifi_radio, the one channel of the access point and the station.
-- - Queue: the FreeRTOS queues that Gateway and EspNow take as a parameter, with what their
--   documentation says of them; Queue/Lists is one that meets it.
-- - Crc, Hdlc: lib/protocols/dlms_cosem/hdlc.cpp, the frame check and HDLC frames.
-- - Dlms: lib/protocols/dlms_cosem/dlms_cosem.cpp, the APDUs; Dlms/Association is about
--   checkAare, Dlms/Frames is readFrame, and Dlms/Session the link, the association and the reads.
-- - Modbus: lib/protocols/modbus_rtu, requests, the read loop and the checks on what it read;
--   Modbus/Silence is init with T3.5 and the wait for silence before a request.
-- - Iec62056: lib/protocols/iec62056_21, the optical reader: identification, rates, the data
--   block; Iec62056/Receive takes bytes from the head and checks a block.
-- - SimulatedHead: lib/buses/ir_head/simulated_ir_head.cpp, the head that plays a meter;
--   SimulatedHead/Session is a read of the optical reader over it, by way of Iec62056/Heard.
-- - BoardMeter: IrSim/board_meter, the board that plays an optical meter; BoardMeter/Session is a
--   session of the reader with it.
-- - CamHttp: lib/protocols/cam_http, the camera reader, over a JSON library that is a parameter.
-- - Bus: lib/buses/bus_checks and the start of lib/buses/sp3485; Bus/Transceiver is the latter
--   at work. Bus/Head is lib/buses/ir_head/real_ir_head.cpp, and Bus/Head/Follows puts it under the
--   optical reader. Bus/Http and Bus/Tcp are lib/buses/http_bus and lib/buses/tcp_bus, and Bus/Module
--   is the interface lib/interfaces/module that the buses fill in Bus/Module/Buses.
-- - Base: Boolean tests, lists by native numbers, bit operations and words; Tests: concrete inputs.
--
-- How code becomes definitions. Names are those of the code in snake case; a comment names the
-- function where they differ. An object with its members is a record that each operation takes and
-- returns; file-level variables are the fields of one record. A byte is a number below 256, words
-- wrap where the code's do (u8, u16, u32), and sub32 is the difference of two readings of millis().
-- A buffer with its length is a list. EXIT_FAILURE is `none` or `false`. The radio, the buses and the
-- clock are inputs: a step is given what its calls return (Air and Tick for the substation, polls for
-- the loops that wait), so a theorem holds for whatever they do.
--
-- Two tasks of the gateway, and the callbacks of the radio, are sequences of steps in any order.
--
-- Loops. A loop over packets or bytes recurses on the list of polls. In LoraLink, Modbus and
-- Gateway/Network a list that ends before the loop gives `none`, and the loop of sendPacket is
-- shown to end; elsewhere the end of the list stands for a clock that has passed the timeout. The
-- fields of an AARE are walked on fuel of one more than its length, and each field takes two bytes;
-- the search for a code in a data block has fuel of two more than its length, and each round goes
-- on at a later byte.
--
-- Not modelled: log lines, floating-point arithmetic (floats are bit patterns, and a DLMS value is
-- its number with its scaler), the driver of the LoRa radio, which only calls the Arduino library,
-- the TCP optical head, which hands its calls on, and the other simulators. strftime, strtof, atof,
-- snprintf, the JSON library, the Preferences library and the queues are parameters; strtok,
-- strrchr and strtoul are written out.
pub mod Base
pub mod Wire
pub mod Queue
pub mod NvsConfig
pub mod Config
pub mod NodeSetup
pub mod Buffer
pub mod LoraLink
pub mod Substation
pub mod SubstationLink
pub mod StationSetup
pub mod MeterGate
pub mod SeqCounter
pub mod Node
pub mod Polling
pub mod BringUp
pub mod Handshake
pub mod Gateway
pub mod PayloadJson
pub mod EspNow
pub mod WifiRadio
pub mod Crc
pub mod Hdlc
pub mod Dlms
pub mod Modbus
pub mod Iec62056
pub mod BoardMeter
pub mod SimulatedHead
pub mod CamHttp
pub mod Bus
pub mod Tests
