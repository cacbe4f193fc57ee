-- ===== src/Lib.antt =====
-- Verification of the firmware of remote-wake (firmware/main), a device that takes signed commands
-- from a relay and wakes, or presses the power button of, the computer that it is plugged into.
--
-- The parts and how they interact. The relay client holds a WebSocket session. Its event handler
-- puts text frames together and queues them; the relay task takes each message from the queue, asks
-- the lockout, verifies the envelope, and only then acts. The verifier reads base64url, builds the
-- signing string by canonical JSON, and keeps a counter for each operator key. Below it, a policy
-- decides when Wi-Fi is tried again; beside it, a classifier reads the power state from the
-- computer's LED, a keyboard types into the computer, and a signed manifest and a journal guard the
-- firmware updates.
--
-- Which file models which part (functions without their prefix `rw_`):
--   WifiRecovery   wifi_recovery.c: `init`, `failed` and `step` on the record `Recovery`; wifi_station.c:
--                  the `turn` of the station task, where the driver call can fail at once.
--   PcPower        pc_power.c: `step` on the record `Classifier`; runs are lists of timed samples.
--   OtaJournal     ota_journal.c: the operations on the record `Journal`.
--   OtaManifest    ota_manifest.c: Text and Flat the tests on texts and the JSON object, Verify the
--                  verification and its stages.
--   OtaWorker      ota.c: the journal and the boot partition (Commit, Install, Boot), what the
--                  worker asks for (Offers), the download (Download), the search of the image for its
--                  identity (Image), and an attempt as a whole (Attempt). A power cut leaves one of
--                  the states of `history`.
--   UsbHid         usb_hid.c: State the callbacks, Report the protocol of a report, Keys the key names,
--                  Actions the operations, Runs lists of them in any order; a run is on a list of slices
--                  of what the bus does.
--   PowerBtn       power_btn.c, as events of several tasks (Presses); maintenance.c and the `quiesce`
--                  of usb_hid.c (Maintenance).
--   B64Url         b64url.c: `encode`, `decode`, `ct_equal` on lists of bytes.
--   Json           the value tree of cJSON and the operations on doubles that the code calls.
--   CanonJson      canon_json.c: Buffer is the growable buffer, Emit the canonical text.
--   Auth           auth.c: `verify` and its stages; the state is the store of counters.
--   Config         config.c: Slots has the operator keys and counters, Counters and Lifecycle what they
--                  promise, Device the verifier with these counters; Texts, Relay and Identity have
--                  the texts that are stored, Setup the start, the network and the reset, with
--                  what they promise in Wifi, Reset and Stays.
--   Relay.Link     relay_client.c, the link state that three tasks share: one function for each
--                  critical section, so that a run is a list of them in any order.
--   Relay.Assembly relay_client.c, `assemble_text` and what it calls, up to the bounded queue.
--   Relay.Lockout  relay_client.c, the ring of times of authentication failures.
--   Relay.Backoff  relay_client.c, the waits between connection attempts.
--   Relay.Commands relay_client.c, from a message of the queue to the command that is executed.
--   Relay.Dispatch relay_client.c, `dispatch`: the operation that a command asks for.
--   Relay.Hints    relay_client.c, `handle_update_hint`, up to the queue of the OTA worker; Unique and
--                  Passed say what its tests mean.
--   CaptiveDns     captive_dns_packet.c: `reply` on the bytes of the buffer.
-- Base holds what they share: tests, lists and integers over the native numbers, and bit operations.
--
-- Parameters of the model: the JSON parser, the arithmetic and printing of doubles, libsodium's
-- signature check, the NVS library (with the laws of `IsNvs`, `IsTextStore`, `IsShared` and
-- `IsApart`),
-- SHA-256, TinyUSB with its callbacks, key codes and layout, the calls of ESP-IDF on partitions
-- and its layout of an image, the HTTP client, the allocator (whether a buffer of a given size can
-- be had), random values, and the clocks. A 32- or 64-bit value that can wrap has `% 2 ^ 32` or `%
-- 2 ^ 64` written out.
--
-- Bounds and fuel: a doubling loop of a buffer takes as many rounds as the size that it needs,
-- which is enough since each round adds at least one; the decimal digits of a 64-bit number take
-- 20 rounds. A segment of an image is read in as many rounds as it has bytes, each of at least one
-- byte (`scan_blocks-whole`). The walk over the labels of a DNS name takes a round for each byte
-- of the query (`skip_name_fuel`). The waits of the keyboard recur on the slices, and end at their
-- deadlines where the clock runs on. All other loops recur on the list or the number that they run
-- over.
--
-- Not modelled: logging, LEDs, the task loops around these parts, the USB descriptors, the checks
-- of the updater's init, the setup pages, and the parts of the repository that are not firmware.
pub mod Base
pub mod WifiRecovery
pub mod PcPower
pub mod OtaJournal
pub mod OtaManifest
pub mod OtaWorker
pub mod PowerBtn
pub mod UsbHid
pub mod B64Url
pub mod Json
pub mod CanonJson
pub mod Auth
pub mod Config
pub mod CaptiveDns
pub mod Relay
