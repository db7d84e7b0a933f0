-- ===== src/Lib.antt =====
-- LibreDarwin: the macOS host of the card agent, and the prompter helper that asks its user.
--
-- The agent serves its clients over a socket and asks the prompter, over another, for a secret or a
-- confirmation. The development models the parts of this repository that decide what crosses those
-- sockets, and proves what they promise.
--
-- - Base: shared names, Boolean tests, lists, and Expected for std::expected.
-- - Wire: what the agent library (another repository) supplies to the prompter protocol, as two
--   records of operations and laws: Cbor (the CBOR value with its codec) and PrompterWire (the prompt
--   kinds, the reply statuses and their words). Wire/Maps is CborValue::Map.
-- - Protocol: agent/src/backend/wire/PrompterProtocol.cpp and its header. Messages has the structs,
--   Fields the field helpers (optText, optUint, requiredSecret and the version gates), Encode the
--   toCbor overloads, Decode the parsers, Display neutralizeDisplayName and
--   formatUntrustedArtifactList. RoundTrip, Strict, Gate and Bounds are proofs.
-- - Prompter: prompter/PrompterServer.cpp. accept_one, on_read_ready, visit and close_connection are
--   the methods of those names; a step gives the new server and its effects (windows raised,
--   replies sent).
-- - Client: agent/src/backend/MacPrompterClient.cpp. request is `request`, request_pin_change
--   `requestPinChange`, request_confirmation `requestConfirmation`; Client/Reset is `reset`. What
--   the socket calls give is the argument Link. Client/EndToEnd joins the client to the prompter:
--   the peer's answer is the server's own reply to the frame.
-- - Authorizer: agent/src/backend/SecCodeAuthorizer.cpp, `authorize` over a resolved peer.
-- - PluginDirectory: agent/src/backend/PluginDirectory.cpp, the cascade (resolvePluginDir), the
--   bundled path it probes, and the report (pluginLoadReportLines).
-- - Transport: agent/src/backend/SocketTransport.cpp. Presence is the published readers and cards
--   (publishReader, publishCard, withdraw, relabelReader, updateProperties, updateCardType, the
--   queries and rebuildRoster); Connections is the clients (acceptOne, onReadReady, enqueueSend,
--   flushWrites, sendThenClose, broadcast, closeConnection), with one SendState for each call of
--   trySendFrame.
--   Listener is the accept source with its pause and the guard of the socket path (checkSocketPath,
--   cancelAcceptSource, onAcceptSourceCancelled, rebindListenSocket, pauseAccepting).
-- - Frontend: agent/src/backend/SocketFrontend.cpp. A request runs to an Outcome, the state it leaves
--   and its effects in order. SignOptions is resolveSignOptions; Gates has the tests that end a request
--   early, and the record Services; Cards, Signing, Records, Config, Trust and Broker have the handlers,
--   Dispatch `dispatch`. Contract says what a request may do, and that each handler keeps to it.
--   Confirmations is confirmThenApply across its worker and the loop: requests, answers, continuations
--   and disconnections in any order, with the connection and the request that each effect is for.
--   Ownership is about m_opOwners, Departure about what a client that is gone leaves. Resolution is
--   onReaderPublished, onWithdrawn, scheduleCardResolve and applyCardResolution over Transport.Presence.
-- - InstanceLock: agent/src/backend/SingleInstanceLock.cpp, acquire and release as steps of any number
--   of processes.
-- - OperationChannel: agent/src/backend/SocketOperationChannel.cpp, the emit methods.
-- - Tests: a concrete codec and vocabulary, and each theorem at concrete values.
--
-- Numbers are natural; a std::uint32_t that is narrowed keeps its reduction modulo 2 ^ 32. The queue
-- caps are the source's 4 MiB, 4096 frames and 32 connections. Loops are structural recursion; the
-- search of collapse runs on the length of the name as fuel, one unit for each byte, which is enough
-- since each round drops a byte of the rest. The lock makes the source's eight attempts. A double of
-- a visual signature is kept as its 64-bit pattern.
--
-- Services stands for the agent library and the transport during one request: the authorizer, the rate
-- limiter, the configuration store, the launcher and the file reads each answer as the record says for
-- as long as that request runs, and another request has another record. Two reads of one descriptor,
-- and two descriptors made for equal contents, may differ. The narrowing of a visual signature's doubles
-- is an argument, and Cbor is taken to decode whatever it encoded, without its limits on depth and text.
--
-- Not modelled: secure zeroing of buffers, the order of std::map's entries, the kernel's view of
-- dispatch sources and descriptors, partial sends (trySendFrame), the prompter's own copy of the path
-- guard, the construction and teardown of the frontend and of the agent (main.cpp), the field-for-field
-- copies of certificates and credentials, the Security framework's verifiers (PeerPolicy), and the
-- windows. A wire handle `obj/{n}` is kept as its number, and a card key as the id it prints.
pub mod Base
pub mod Wire
pub mod Protocol
pub mod Authorizer
pub mod PluginDirectory
pub mod Prompter
pub mod Client
pub mod Transport
pub mod Frontend
pub mod InstanceLock
pub mod OperationChannel
pub mod Tests
