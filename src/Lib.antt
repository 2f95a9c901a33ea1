-- ===== src/Lib.antt =====
-- A verification library for the firmware of the PowerMeter V2 headless sensor: an ESP32 agent that
-- reads one PZEM-004T meter, keeps measurement intervals, and sends telemetry to a server over
-- authenticated HTTPS. The C sources are in components/ and main/.
--
-- How the parts interact: the sampling task reads the meter (Meter) and hands each sample to the
-- telemetry queue (Telemetry) and to the interval that is being measured (Measurement). The network
-- task takes the newest sample from the queue, waits after failures as Telemetry.Backoff says, and
-- keeps its rhythm by fixed deadlines. It authenticates the headers of a response (HttpResponse), and
-- the commands that a response carries go through the ledger (Commands). Events of both
-- tasks drive the operating state (Machine). The older runtime, with a journal on a card, selects
-- batches of stored records (Backlog).
--
-- Files and sources:
--   Base         shared names, lists, integers, laws of the bit operations, esp_err_t
--   Machine      components/pm_config/pm_state.c: pm_state_transition is `transition`,
--                pm_state_health_set is `health_set`; Edges has the diagram, Traces the histories
--   Meter        components/pm_meter/pm_meter_pzem_v4_classic.c: pm_modbus_crc16 is `modbus_crc16`,
--                pm_pzem_v4_classic_parse_response is `parse_response`; Crc, Frame, RoundTrip and
--                Detect hold what is proved of frames
--   Measurement  components/pm_measurement/pm_measurement.c: pm_interval_add is `interval_add`,
--                pm_interval_finalize is `interval_finalize`; Reference is what it is held against
--   Telemetry    components/pm_telemetry/pm_telemetry.c: the queue of two places, the retry delay
--                and the fixed schedule; History adds what the queue's clients have seen
--   Backlog      components/pm_network/pm_backlog_policy.c
--   HttpResponse components/pm_protocol/pm_http_response.c: pm_http_response_capture_header is
--                `capture_header`, pm_http_response_capture_validate is `capture_validate`; Digits,
--                Step and Unique follow the captured headers, Accepted and Names state the results
--   TrustedTime  components/pm_protocol/pm_time.c: pm_time_observe is `time_observe`, pm_time_now is
--                `time_now`; Monotone has histories of calls. Checkpoint has persist and
--                pm_time_load_checkpoint, Slots and Reload what a restart finds
--   Nvs          the flash store as a parameter: its operations, what ESP-IDF documents of them while
--                the firmware runs (IsNvs) and of what a restart finds (IsFlash, in Restart: a write
--                is only sure to be stored after nvs_commit), and stores in memory that meet these
--                (Memory, and Flash, which loses what was not committed)
--   Sequence     components/pm_storage/pm_sequence.c: Defs has the operations; Persist what a write
--                leaves, Reading and Store what the slots say, Start and Running one run, Fresh any
--                history, with restarts that may lose what was not committed
--   Config       components/pm_config/pm_config.c: Types has validation, Lock the transaction lock,
--                Steps and Staged the operations; InForce, Works, Writes and Unowned what they leave in
--                the flash store, Always, Committed and Owner the results. These are about what the
--                store holds, committed or not
--   Version      components/pm_ota/pm_ota_version.c: pm_ota_version_require_upgrade is
--                `require_upgrade`; Numbers, Numerals, Texts and Order hold what is proved
--   Crc32        components/pm_config/pm_config.c: pm_crc32_ieee is `crc32_ieee`
--   Protocol     components/pm_protocol/pm_protocol.c: pm_constant_time_equal (Compare holds its law),
--                in Nonces pm_nonce_accept, in Canonical pm_canonical_query and
--                pm_build_canonical, in Verify pm_verify_response_digest; Replay and Once hold
--                what is proved of nonces and responses
--   Batch        components/pm_storage/pm_storage.c: insert_sorted; Inserted has the list lemmas, Least the
--                result
--   Journal      components/pm_storage/pm_journal.c: Defs has the codec of headers and records; Words,
--                Values and Bytes the parts of the round trips in RoundTrip and Segments
--   Commands     components/pm_commands/pm_commands.c: Steps has acceptance and the write of the
--                ledger, Changes the other operations, Load the reading of the two slots and Locked
--                the operations behind the lock; Accept, Search, Replay, Once, Change and Boot their
--                laws.
--                The flash store, SHA-256 and the layout of objects are the record Platform
--
-- Conventions: a function that changes the object behind its pointer returns the new object, with
-- its result. A pointer parameter is never NULL; the guards that return early for NULL are left out.
-- A uintN_t is a number whose wrap-around is written out, and its range is a hypothesis where it
-- matters; an int32_t or int64_t is an integer (Base.Int), and its arithmetic is exact except where
-- a file says otherwise. Loops recur on the list that they walk or on the count that they lower, so
-- no fuel is needed.
--
-- Not modelled: the tasks themselves, the network and TLS code, the drivers, the installation of
-- updates, provisioning, the signing of requests and the derivation of keys, and the files of the
-- runtime that used a memory card.
pub mod Backlog
pub mod Base
pub mod Batch
pub mod Commands
pub mod Config
pub mod Crc32
pub mod HttpResponse
pub mod Journal
pub mod Machine
pub mod Measurement
pub mod Meter
pub mod Nvs
pub mod Protocol
pub mod Sequence
pub mod Telemetry
pub mod TrustedTime
pub mod Version
