-- ===== src/Lib.antt =====
-- Paradox Alarm Interface (PAI): a model of the parts that carry the connection to an alarm panel,
-- and theorems about them.
--
-- PAI talks to a Paradox alarm panel over a serial line or an IP module, keeps what it learns of the
-- panel's zones, partitions and outputs, and passes changes on to interfaces such as MQTT. The parts
-- modelled here, from the wire up:
--
-- * The transport hands pieces of a byte stream to a protocol object (paradox/connections/
--   protocols.py), which cuts them into messages. Connections/Serial models
--   SerialConnectionProtocol.data_received with the checksum of Connections/Checksum (the function
--   checksum there, calculate_checksum of paradox/hardware/common.py); Connections/Ip models
--   IPConnectionProtocol.data_received. The loop of the serial protocol runs on fuel, one round more
--   than there are bytes, since every round but the last takes a byte off the buffer. The packet
--   parser of the IP protocol is declared with the library `construct`; it is a parameter.
-- * The bytes of an IP packet are encrypted with the AES of paradox/lib/crypto.py: Crypto/Tables has
--   its tables, Crypto/Cipher the rounds, Crypto/Keys the key schedule (_keygen), Crypto/Message the
--   functions encrypt and decrypt over blocks of 16 bytes.
-- * Connections/Life models the life of a connection: ConnectionProtocol, Connection
--   (paradox/connections/connection.py) and the tries of MultiAttemptConnection.connect
--   (paradox/connections/ip/connection.py). The transport belongs to the event loop; its callbacks
--   are operations, and what it reports is an argument.
-- * A message that has been parsed is offered to handlers: Handlers models paradox/lib/handlers.py,
--   futures that wait for one reply and handlers that stay, and the registry with its pass over
--   them. Tasks interleave as explicit sequences of operations.
-- * Session models the class Paradox of paradox/paradox.py: Session/Request has send_wait,
--   Session/Polling the status loop, Session/Connecting connect, full_connect, disconnect, pause and
--   resume over the run state, Session/Partitions _update_partition_states, Session/Troubles
--   _process_trouble_statuses, Session/Errors handle_error_message (with
--   get_error_message of paradox/hardware/panel.py), Session/Clock the synchronisation of the time,
--   Session/Control the control methods and send_panic.
--   Session/Restarts is run_loop of paradox/main.py. How a call to the connection, the panel or the
--   event loop ends is an argument there: a function of the attempt, a list of turns or a script.
--   The loops of send_wait and connect run on fuel that their counters bound.
-- * Storage models what is known of the panel: Storage.antt the loop of
--   MemoryStorage.update_container_object (paradox/data/memory_storage.py), Storage/Memory the rest
--   of that class, Storage/Container the class ElementTypeContainer
--   (paradox/data/element_type_container.py), in both of which elements are references, and
--   Storage/Keys its keys, of which digits are ASCII digits.
-- * Status models how a reply becomes a status: Status/Merge deep_merge of paradox/lib/utils.py,
--   by which the statuses of several requests are put together, and Status/Conversion
--   convert_raw_status of paradox/parsers/status.py with its split of keys into elements.
--   Dictionaries are nested; their lists hold atoms.
-- * Events models the filters of paradox/lib/event_filter.py, by which an interface chooses the
--   events that it passes on (regular expressions are a parameter; the queries come as their parts),
--   and the events themselves (paradox/event.py): Events/Live has LiveEvent.__init__, Events/Change
--   ChangeEvent.__init__. Session/Changes has Paradox._on_property_change, which makes the latter.
--   Events/Tables has all four tables of the panels, event_map and property_map of
--   paradox/hardware/{evo,spectra_magellan}, entry by entry in their order, in files named by the
--   first major code. `format` of a value and the functions of the tables are parameters.
-- * Encodings models paradox/lib/encodings: the twelve charmaps, decoding with one, and
--   paradox_codec_search with its cache.
-- * Panel models the panel classes of paradox/hardware: Panel/Parsing parse_message with the choice
--   of a format, and on_connection_message with its handlers; Panel/Login encode_password and
--   initialize_communication; Panel/Dump dump_memory; Panel/Commands the control methods of both
--   panels and the interface `Commands` by which Session/Control uses them; Panel/Adapters adapters of
--   adapters.py, which turn bytes of the panel into values; Panel/Eeprom _eeprom_batch_reader, which
--   joins reads of the panel's memory into requests. What a format makes of bytes, and what the panel
--   answers, are arguments.
-- * PubSub models paradox/lib/ps.py and, in PubSub/Wiring, the topics that Paradox subscribes.
-- * Interfaces models paradox/interfaces: Interfaces/Text handle_command of text/core.py, and
--   Interfaces/Mqtt the handlers of mqtt/basic.py with the topics, the challenge (the digests are
--   parameters) and the toggle codes, the connection and the cache of what is published
--   (mqtt/core.py).
--
-- Prelude has what the parts share: Boolean tests and lists over the native numbers, bytes, the
-- exclusive or, and dictionaries as lists of entries.
--
-- Numbers are natural numbers; where the source reduces modulo 256 or relies on a byte, the
-- reduction is written out or the bound is a hypothesis. Loops are recursions on their lists; a
-- loop without one runs on fuel, and its theorem gives the fuel that is enough. Logging is left
-- out. Not modelled: the message formats declared with `construct` (paradox/hardware/*/parsers.py),
-- whose meaning is that library's, but for the entries that handlers look at; a check function of a
-- handler that raises, and a future that is cancelled; a loss of the connection while the calls of
-- a login run; property values that are None; load_memory and request_status of the panels; the
-- formatting of event messages; the functions of the event tables; encoding with the charmaps,
-- which PAI does not do; the handshake with the IP module and its interface, the STUN client, Home
-- Assistant's discovery, the text services other than their common core, the configuration and the
-- console scripts.
pub mod Prelude
pub mod Connections
pub mod Crypto
pub mod Handlers
pub mod Panel
pub mod Storage
pub mod Status
pub mod Session
pub mod Events
pub mod Encodings
pub mod Interfaces
pub mod PubSub
