-- ===== src/Lib.antt =====
-- Verification of uiscsi, an iSCSI initiator in Go: its wire formats, its CmdSN window, the dispatch
-- of responses, the transfer of written and read data, the life of a command in the session, and the
-- login.
--
-- The parts and how they interact. A command is a typed PDU (internal/pdu) that MarshalBHS turns into
-- 48 bytes; the session (internal/session) stamps it with digests (internal/digest) and the framer
-- (internal/transport/framer.go) writes it with its data to the connection. Before that, `acquire` of
-- the command window (internal/session/cmdwindow.go) gives it a CmdSN, by the serial arithmetic of
-- internal/serial, and the router (internal/transport/router.go) a task tag with a channel. What the
-- target answers is read by the framer, decoded by DecodeBHS and dispatched by tag; an R2T makes the
-- task send a burst of Data-Out PDUs (internal/session/dataout.go), and Data-In PDUs are put together
-- by their DataSN, with SNACKs for those that are missing (datain.go, snack.go), in a buffer or in a
-- stream for the caller (chanreader.go). Submit starts a task with all of this, and taskLoop runs it
-- until its result is sent (session.go). The login phase (internal/login/login.go) exchanges keys as
-- text (textcodec.go) in two stages, authenticates both sides with CHAP (chap.go) and settles each
-- parameter by its type (negotiation.go).
--
-- The files:
-- - Common: native lists, Boolean tests, bits, bytes and big-endian words at an offset, maps and text.
-- - Pdu/Opcode, Pdu/Header: opcode.go, bhs.go, padding.go, header.go. Pdu/Initiator and Pdu/Target:
--   initiator.go and target.go, each type with `marshal_x` for MarshalBHS, `unmarshal_x` for
--   UnmarshalBHS and `sent_x` for what the wire keeps. Pdu/Codec: the PDU interface, DecodeBHS and
--   EncodePDU (pdu.go). Pdu/Ahs: ahs.go. Theorems are in Pdu/RoundTrip, Pdu/Shape, Pdu/Decoding,
--   Pdu/Encoding and Pdu/Ahs/RoundTrip.
-- - Serial: serial.go. Theorems are in Serial/Order.
-- - Window: the functions of cmdwindow.go that run under the lock. Window/Waiter: a blocked `acquire`
--   as a step relation. Theorems are in Window/Flow, Window/Waiter/Results and Window/Waiter/Races.
-- - Transport/Router: router.go. Theorems are in Transport/Router/Laws and Transport/Router/Tags.
-- - Digest: crc32c.go. Transport/Framer: framer.go. Theorems are in Transport/Framer/Wire,
--   Transport/Framer/Reading and Transport/Framer/Digests.
-- - Session/ChanReader: chanreader.go, with its theorem in Session/ChanReader/Streams.
-- - Session/ReadTask, Session/Snack, Session/DataIn: datain.go and snack.go. Theorems are in the
--   modules of Session/DataIn/Reassembly: Steps, Drain and Gap for the parts, Arrival for one PDU,
--   Reads for the caller, Start for a new task, Quiet for a task that has no status yet.
-- - Session/Command, Session/State, Session/Submit: Command of types.go, the state, Submit and
--   SubmitStreaming of session.go. Theorems are in Session/Submit/Registered,
--   Session/Submit/CommandPdu and Session/Submit/LostNumber.
-- - Session/TaskLoop: the rounds of taskLoop and retrySameConnection of session.go. Theorems are in
--   Session/TaskLoop/Results and Session/TaskLoop/EarlyStatus. Session/TaskLoop/WholeRead: the loop
--   over the rounds of a read, with its theorem in Session/TaskLoop/WholeRead/Whole.
-- - Session/Unsolicited: the Reject branch of handleUnsolicited of session.go, with its theorem in
--   Session/Unsolicited/Results.
-- - Session/Drain: Drain of session.go, with its theorem in Session/Drain/Results.
-- - Session/Stamping: stampDigests of session.go, with its theorems. Session/DataOut: dataout.go.
--   Theorems are in Session/DataOut/Segments, Session/DataOut/Exhausted and Session/DataOut/Tasks.
-- - Login/TextCodec: textcodec.go. Login/Decimal: the decimal numbers of strconv, with their theorem.
--   Login/Params: params.go. Login/Negotiation: resolveKey and clampValue of negotiation.go. Theorems
--   are in Login/TextCodec/RoundTrip, Login/Negotiation/Results and Login/Negotiation/Lists.
-- - Login/Registry, Login/Operational: keyRegistry and applyNegotiatedKeys of negotiation.go, and the
--   settling of the keys in login.go. Theorems are in Login/Operational/Ranges for one key and in
--   Login/Operational/Bounds for all.
-- - Login/Chap: chap.go, with theorems in Login/Chap/Binary and Login/Chap/Authentication.
-- - Login/Stages: sendLogin, the stages and run of login.go. Theorems are in Login/Stages/Results for
--   one request, Login/Stages/Chap for the security stage and Login/Stages/Whole for a login.
-- - The modules Tests hold concrete runs.
--
-- How the code is read. A byte, a uint16 and a uint32 are numbers, with `% 2 ^ w` where the code
-- may wrap; int32 of a difference is negative from 2 ^ 31 on. An OR of bytes shifted to disjoint
-- places is their sum. A Go map is an association list without repeated keys, a channel the number
-- of the `make` that created it. A lock is modelled by taking what runs under it as one step; in
-- Window/Waiter every action between two points where another goroutine may act is a step, and the
-- cancellation of a caller, which takes no lock, may fall in between. A task's function is one step
-- with what the rest of the session does meanwhile as arguments: whether a channel takes a PDU,
-- whether the caller has received the result. A send to a full channel of chunks waits and then
-- appends; a send on a closed channel is a panic, the value `none` or `panicked`. A reader is the
-- list of bytes that it still delivers.
--
-- Parameters: CRC32C of hash/crc32 is an argument `crc`; that it has 32 bits is a hypothesis where it
-- matters. MD5, the base64 of CHAP and the order in which Go walks the map of CHAP's answer are
-- arguments. The answers of `expStatSN` are a function of the DataSN.
--
-- Fuel: UnmarshalAHS has a round for each byte, and each round takes four bytes at least;
-- sendDataOutBurst has a round for each byte of the burst and one more, and each round sends a byte
-- at least; drainPendingDataIn has a round for each buffered PDU and one more, and each round takes
-- one out. Running out is an answer of the model's own (an error value, or that of a panic), which
-- the theorems exclude. A decimal has 20 digits at most, as a uint64 has.
--
-- Not modelled: Close, the pumps and the unsolicited NOP-In and asynchronous messages of the
-- session, the options and deadlines of the login, recovery, discovery, the SCSI command builders and
-- parsers, the connection with its pumps and buffer pool, logging, metrics, and error texts.
pub mod Common
pub mod Pdu
pub mod Serial
pub mod Window
pub mod Digest
pub mod Transport
pub mod Login
pub mod Session
