-- ===== src/Lib.antt =====
-- A verification library for the FoxESS local gateway: the wire protocol, the local control channel,
-- the sessions and the bookkeeping of the server, the publisher's commands and entities, telemetry
-- decoding, firmware transfers and BLE provisioning frames.
--
-- The gateway sits between FoxESS micro-inverters and the vendor's cloud. Bytes arrive on a TCP stream;
-- `extract_frames` cuts frames out of a buffer and each one is classified (telemetry, product
-- information, mesh role, Modbus command or response, bootstrap, firmware transfer). The gateway
-- answers the bootstrap itself, injects Modbus requests of its own between those of the cloud, decodes
-- telemetry for MQTT, and can capture a firmware push instead of letting it through.
--
-- Which file models which part:
--
--   Prelude, Bits, Bytes, Dict   shared: numbers and lists, bit operations, Python's `bytes`, `dict`
--                                and exceptions (`Result`)
--   Protocol/Crc, Frame          foxess_local_cloud/protocol.py: crc16_le, Frame, make_frame, parse_frame
--   Protocol/Extract             extract_frames: one round of the `while True` is `extract_round`, which
--                                stops, skips or emits; the loop is `extract_loop`
--   Protocol/Bootstrap           registration frames, bootstrap_response, BootstrapResponder
--   Protocol/Modbus, Mesh, Info  builders, classifiers and parsers of the remaining frames
--   LocalControl                 foxess_local_cloud/local_control.py: LocalControl; `begin_write` and
--                                `finish_write` are write_register before and after its wait
--   Server/PowerLimit            foxess_local_cloud/server.py: FoxessLocalCloud's tables of desired and
--                                applied setpoints and their generations
--   Server/Staleness             publish_telemetry and _mark_stale_telemetry, with the messages of
--                                MqttPublisher.publish
--   Server/Upstream              Session.choose_upstream and Session.handle_upstream_frame
--   Server/Faults                Session._update_fault_state
--   Server/Session               the state of Session, what it calls outside itself, and its actions
--   Server/Support               supports_active_power_limit
--   Server/Control               the command wiring, pending reads and readbacks of Session;
--                                Control/Setpoint: applying, settling and reading the setpoint
--   Server/Handle                Session.handle_frame, an action for each paragraph of the method
--   Server/Relay                 Session.run_local and Session.relay_client_to_upstream;
--                                Relay/Downstream: Session.relay_upstream_to_client
--   Mqtt                         foxess_local_cloud/mqtt.py: MqttPublisher's connection, its commands and
--                                the ActivePowerLimit's entities
--   Telemetry                    foxess_local_cloud/telemetry.py: decode_telemetry, fault_code_for
--   Firmware/Variant, Metadata   foxess_local_cloud/firmware.py: FirmwareVariant, FirmwareImage,
--                                parse_firmware_metadata, build_firmware_metadata
--   Firmware/Capture             FirmwareCapture.handle_upstream_frame and _send_ack
--   Firmware/Chunks              the requests of FirmwareUploader.upload
--   Firmware/Upload              FirmwareUploader.handle_client_frame
--   Ble                          foxess_local_cloud/ble_provision.py: the frames and the scan response
--   Examples                     concrete runs
--
-- A byte string is a list of native numbers, and a text is the list of its code points. A function
-- that raises returns a `Result`; one that keeps state takes it and returns it. Concurrency is an
-- explicit sequence of events: `LocalControl.Outcome` interleaves a waiting write with the answers,
-- requests and ends of other writes; `Server.Control.Delivery` interleaves commands, settlings and ends
-- of writes of any sessions. A method of `Session` is an action: it changes the session, makes calls of
-- the publisher, the application and the writers in order, and may raise; what it did before stays.
-- The session's callbacks for local control are a `Registry`, which `Server.Control` fills. A publication is an
-- attempt, and whether it reaches the broker is the environment's. What the events of the log say is left
-- out, except where a report is what a theorem is about.
--
-- Bounds and fuel. `extract_loop` has one round more than the buffer has bytes, and every round that
-- goes on shortens the buffer. `chunks_from` has a round for each byte of the image, and every chunk
-- is at least one byte. The operations on 16 and 24 bits of the code keep their wrap-around (`% 65536`,
-- `% 2 ^ 24`); keys of injected requests are distinct for as long as the 16-bit counter has not come
-- round.
--
-- Parameters: the rounding of floats (`scaled`), pathlib's `name` (`path_name`), writing a captured
-- image to disk (`save`), decoding UTF-8 with replacement (`decode`), whether an address is public
-- (`is_public`), decoding UTF-8 and `int` of a command's text (`decode_utf8`, `int`), and the clocks.
--
-- Not modelled: sockets, TLS, certificates and signals, the MQTT client itself, the telemetry topics and
-- the JSON of its discovery payloads, configuration files, JSON logging, the connection to the cloud in
-- run_relay, the waits of a firmware upload and of the BLE session.
pub mod Prelude
pub mod Bits
pub mod Bytes
pub mod Dict
pub mod Protocol
pub mod LocalControl
pub mod Server
pub mod Telemetry
pub mod Firmware
pub mod Ble
pub mod Mqtt
pub mod Examples
