-- ===== src/Lib.antt =====
-- The pair control of jbl-aura-play-together, which links a JBL speaker (the broadcaster) and an Aura
-- speaker (the receiver) and unlinks them. No command to a speaker may be repeated or followed by
-- another while it is unknown whether the one before took effect; the program keeps that promise with
-- a latch in memory and a journal on disk, and the development is about that promise.
--
-- The parts, from the top down, all under rust/src:
--
-- - controller.rs, `PairController`: Controller. It reads the pair's membership, refuses actions that
--   the latch or the membership forbids, marks the journal, calls the backend through a transaction,
--   and reduces the answer to a state and a result. `mutate` is cut at its early returns into
--   `preflight`, `admitted`, `journalled` and `execute`; `reduce_backend_result` at its branches into
--   `reduce_rejected`, `reduce_accepted` and `settle`. Controller/Types, Failures, State and Reduce
--   hold the data and the helpers; Latch, Gate, Evidence, Endings, Quiet, Owing and
--   Session the theorems.
--   Session runs any sequence of actions and status reads.
-- - backend.rs, `PairBackend` and `PairBackendTransaction`: Backend and Backend/Transaction, with the
--   theorems in Backend/Transaction/Pinning. A trait is a record of operations, and the controller is
--   modelled and proved over any such record.
-- - journal.rs: Journal for the states, the text form and the trait, Journal/Codec for the text form's
--   laws, Journal/File for `FileUncertaintyJournal`. Its state directory keeps, of each of its two
--   names, the entry seen now and every entry that a crash may leave; Journal/File/Open opens it.
--   Durable, Crash and Promise carry the crash argument, Reopen what a restart finds, and the laws
--   that the controller takes.
-- - backend_native.rs, `NativePairCore`: Native for the state and the calls on the collaborators,
--   Native/Types for their traits and the error maps, Native/Actions for the actions, each cut at the
--   calls that can end it. The trace of calls is the model's own. WriteSafety, Order and Latch, with
--   the modules below them, hold the theorems. WriteSafety fills the contract that Controller/Quiet
--   takes.
-- - The broadcast observers of the same file, `ConfirmedBroadcastCoordinator` and
--   `ProductionBroadcastObserver`: Native/Coordinator, with Native/Coordinator/Evidence.
-- - model.rs: Model for `DeviceIdentity` and Model/Identity for its parser's laws, Model/Group for
--   `parse_group_status`, Model/Group/Sanitized for what it lets through, Model/Group/Faithful for what
--   it tells of the response, and Model/DeviceInfo for `parse_device_info`. JSON values are of any type
--   with the accessors that the source uses.
-- - The group listing as controller.rs projects it: Controller/Observation.
-- - aura_bluez.rs: Aura for `AuraControlCore`, which puts the commands behind a latch, over any
--   `AuraIo`; Aura/Once says what it relies on. Aura/Bluez is `BluezIo`, the one implementation, and
--   Aura/Bluez/Promise shows that it keeps what the core relies on, over the sockets of
--   Aura/Bluez/Log, which keep a log. Below it: Aura/ColdConnect the order of the attempts to connect,
--   Aura/Acquire the two kinds of attempt, Aura/Att the packets, Aura/Scan the search for a fresh
--   advertisement, Aura/Health the probe of a socket, Aura/Timings, and Aura/WakeBluez with
--   Aura/Release the BlueZ side of the wake. `connect_cold_bearer` and `scan_once` are cut at their
--   branches. Att holds the socket that both transports speak over, and Att/Action the operator `?`.
-- - aura_wake.rs, `acquire_aura_wake`: Wake, with Wake/Cleanup.
-- - jbl_gatt.rs, `JblGattBroadcastTransport`: Gatt, with Gatt/Traffic. It fills the trait of
--   Native/Coordinator.
-- - web.rs: Web/Request for `parse_request`, Web/Framing for `request_frame`, Web/Authority for the
--   tests of host, origin, cookie and revision, Web/Handle for `WebApp`, whose guards are
--   Web/Handle/Guards and Web/Handle/Token. Web/Actor is the controller as the actor of
--   service_runtime.rs. Web/Text holds what the source uses of `str`; texts are lists of bytes there.
-- - config.rs: Config for the sources of the settings and `RuntimeConfig::load`, with
--   `load_from_source` cut into its settings; Config/Settings for `parse_config_text`, Config/Text for
--   what it uses of the standard library, and Config/Payload for the text that
--   `install_private_config` writes. Its laws are in Config/Bounds and Config/Installed, with Lines and
--   Writable. A path is the list of its components.
-- - control.rs: Control, with Control/Frame, and Control/Response for `BasicResponse::parse`.
--   aura_protocol.rs: AuraProtocol.
-- - The parts composed, as service_runtime.rs composes them: Pair for the controller over the file
--   journal, Pair/Trace for the controller over the native backend.
-- - error.rs: Error. Base holds the helpers that the parts share.
--
-- A `&mut self` method returns its result with the state afterwards. Times are numbers of
-- milliseconds, and `Instant::now` is an argument; the transports count nanoseconds. Counters saturate
-- as in the source (255 and 2^64 - 1). Texts are lists of code points. The results of system calls, of
-- Bluetooth and of the network are arguments or come from the records of operations, which the theorems
-- leave open; there a call within a deadline answers, fails or misses it.
--
-- Recursion is on lists, or on the source's own bounds: 32 packets in Aura/Att and Gatt, the configured
-- attempts in Aura/Acquire. One loop of the source has no bound but the clock, the wait for a released
-- profile in Aura/Release; it runs on fuel, one turn for each 100 ms before the deadline and two more,
-- and the fuel is shown to be enough.
--
-- Not modelled: UPnP events, HTTPS and TLS, the checks of private files and the installer's writes, the
-- socket loop and the responses of the local web service, the local client and the command line;
-- variants and hooks that are built for tests only; display texts.
pub mod Base
pub mod Error
pub mod Model
pub mod Control
pub mod Config
pub mod AuraProtocol
pub mod Backend
pub mod Journal
pub mod Controller
pub mod Native
pub mod Att
pub mod Aura
pub mod Wake
pub mod Gatt
pub mod Web
pub mod Pair
mod Tests
