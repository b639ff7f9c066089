-- ===== src/Lib.antt =====
-- Models and proofs for the firmware of the sensor node and its panel.
--
-- The two nodes talk over a WebSocket on TLS. `common/net/ws_server.c` is the server on the sensor
-- node: it authorizes a connection (`authorize_request`), keeps a table of clients and a cache of
-- handshake nonces. `common/net/ws_client.c` is the panel's side: it builds the headers that the
-- server checks, handles the events of the connection and arms the timer that connects again.
-- `hmi_node/main/net/ws_client.c` looks for the node by mDNS, sends it commands and takes over its
-- updates; `common/proto/messages.c` writes and reads both kinds of message, as JSON or CBOR. Both
-- ends use `common/net/ws_security.c` for the handshake signature, the encryption of frames and the
-- one-time password, and this uses `common/util/totp.c`. Under them `common/net/wifi_manager.c`
-- joins the Wi-Fi network, and `common/ota/ota_update.c` replaces the firmware of either node. The
-- sensor node reads its sensors over `i2c_bus.c` into its data model; the panel keeps the last
-- update and the user's preferences, which it also stores in flash memory. Two tasks of the node
-- carry out the commands and filter the readings.
--
--   Util/RingBuf      common/util/ringbuf.c, a record with one function per operation
--   Util/Totp         common/util/totp.c
--   Util/Base64       common/util/base64_utils.c
--   Util/Base32       common/util/base32_utils.c
--   Util/Crc32        common/proto/proto_crc32.c
--   Util/CertStore    components/cert_store/cert_store.c
--   Security          common/net/ws_security.c; the context is the record `Context`
--   Server/Types      the structs of common/net/ws_server.c
--   Server/Headers    its parsers `hex_value`, `parse_nonce_hex`, `parse_decimal_header`
--   Server/Nonces     `nonce_is_duplicate` and `nonce_store`
--   Server/Clients    the client table: `find_client`, `add_client`, `drop_client` and others
--   Server/Authorize  `authorize_request`
--   Server/State      its configuration and its static variables
--   Server/Connect    `ws_handler`: the GET that opens a connection; `ws_close_hook`
--   Server/Frames     `ws_handler`: the frames of a client
--   Server/Sweep      the loop over the client table that the next two share
--   Server/Ping       `ping_timer_cb`
--   Server/Broadcast  `ws_server_send`
--   Server/Lifecycle  `ws_server_start` and `ws_server_stop`
--   WsClient          `bytes_to_hex` of common/net/ws_client.c
--   WsClient/State    its configuration and its static variables
--   WsClient/Decimal  the decimal digits that its `snprintf` writes
--   WsClient/Headers  `regenerate_headers`
--   WsClient/Authorized  the client's headers before the server's `authorize_request`
--   WsClient/Events   `websocket_event_handler` and `reconnect_timer_cb`
--   WsClient/Send     `ws_client_send`
--   WsClient/Lifecycle  `ws_client_start`, `cleanup_client` and `ws_client_stop`
--   Wifi              common/net/wifi_manager.c: its events and the reconnect timer
--   Wifi/Connect      the loop of `wifi_manager_start` that waits for the connection
--   Wifi/Start        the choice of the provisioning scheme and `wifi_manager_start`
--   Ota               common/ota/ota_update.c
--   Node/DataModel    sensor_node/main/data_model.c
--   Node/I2cBus       sensor_node/main/i2c_bus.c: the retries of a transfer
--   Node/Drivers      sensor_node/main/drivers: pca9685.c, mcp23017.c, tca9548a.c, sht20.c, ds18b20.c
--   Node/Tasks        sensor_node/main/tasks: t_io.c in Io; t_sensors.c in Sensors, with
--                     `onewire_bus_scan` of sensor_node/main/onewire_bus_manager.c; in Commands,
--                     `ws_rx` of sensor_node/main/net/ws_server.c
--   Panel             hmi_node/main/data_model.c and, in Store, hmi_node/main/prefs_store.c
--   Panel/Net         hmi_node/main/net/ws_client.c: `hmi_ws_client_send_command` and `ws_rx`
--   Panel/Net/Discovery  what it makes of an answer of mDNS
--   Panel/Net/Cache   its search for the node and the endpoint in flash memory
--   Panel/Net/Start   its `hmi_ws_client_start`
--   Proto             common/proto/messages.c: the command; its JSON and CBOR are in the children
--   Proto/Printf      `json_append` and the conversions of printf
--   Proto/Document    documents of names, numbers, texts and lists, and their text
--   Proto/Schema      the documents of a command and of a sensor update
--   Proto/Json        the two encoders to JSON
--   Proto/Decode      the two decoders of JSON, over cJSON, whose functions are the record Proto/Cjson
--   Proto/RoundTrip   what is decoded of what was encoded
--   Proto/Cbor        the calls of TinyCBOR that the two encoders make
--   Proto/Tinycbor    the two decoders of CBOR, over the functions of TinyCBOR
--   Proto/Codec       the choice between JSON and CBOR
--   Proto/Toy         a small cJSON for the examples
--   Crypto            what is used of mbedTLS, as a record of functions with its documented laws
--   Prelude           numbers, lists, bytes, words and `esp_err_t` results
--
-- A function that writes through pointers returns what it wrote beside its status. What a function
-- asks of the platform (a timer that is armed, a frame that is sent, a delay) is a list of actions
-- beside its result, and what the platform answers is an argument. Loops over an array are recursion
-- on the list of its elements, and loops that count (`totp_verify`, the attempts of `ota_task`,
-- `sht20_read_measurement` and `i2c_master_cmd`) are recursion on the number of rounds that are
-- left, so they need no fuel. Only the loop of `wifi_manager_start` has no bound of its own: it runs
-- over a list of the waits that have returned so far, and gives `none` while it still waits; the
-- theorem on it says how many waits are enough. The search of the panel runs over a list of its
-- rounds in the same way. The loops over a CBOR container take a bound on their rounds and give
-- `unfinished` where it is too small; a container has one round for each entry. `size_t`, `uint32_t`
-- and ticks are numbers below 2 ^ 32 with the wrap-around written out; the controllers are 32-bit.
--
-- Not modelled: logging, memory that runs out inside the libraries, what a buffer holds after a call
-- that failed, arithmetic on floats and their text, drawing, and the services of the operating
-- system. cJSON, TinyCBOR and mbedTLS are parameters. A task runs each handler to its end before the
-- next. The header of each file says what it leaves out.
pub mod Prelude
pub mod Crypto
pub mod Util
pub mod Security
pub mod Server
pub mod Ota
pub mod Wifi
pub mod Proto
pub mod WsClient
pub mod Node
pub mod Panel
