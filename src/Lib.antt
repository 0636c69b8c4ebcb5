-- ===== src/Lib.antt =====
-- Verification library of the SillyTavern multiplayer extension.
--
-- The extension lets several people play in one SillyTavern chat. A relay (server/lib/relay.js), which
-- runs as a server plugin on the host's machine, seats peers after a handshake and a comparison of
-- their installed extensions, and forwards their encrypted frames to each other. The browser code
-- (lib/) speaks to it over one WebSocket.
--
-- Files and the code they are about:
--   Base, Base/*          shared names: Boolean tests, lists, texts, integers.
--   Protocol              server/lib/protocol.js: OP, ROLE and the tables of what a client may send.
--   Protocol/Limits       server/lib/protocol.js: LIMITS and OOC.
--   Replay                server/lib/crypto.js: ReplayWindow. Replay/History compares it with a guard
--                         that remembers everything.
--   Limiter               server/lib/crypto.js: TokenBucket, and the two buckets of a peer. Limiter/Bound
--                         bounds what a bucket grants.
--   Limiter/Budget        lib/send-budget.js: SendBudget. Limiter/Budget/Pacing sets it against the
--                         relay's buckets.
--   Parity                server/lib/relay.js: diffReports. Parity/Maps and Parity/Agreement say what
--                         it decides.
--   Relay/State           server/lib/relay.js: the fields of Relay and Peer, the messages, the effects
--                         and the combinators of handlers.
--   Relay/Room            #broadcast, #roster, #admit and #removePeer. Relay/Room/Peers, Sends and Seats
--                         hold the lemmas on the map of peers, on what is sent and on who is seated.
--   Relay/Gate            #onParityReport and #resolveParity. Relay/Gate/Admission is the gate's theorem.
--   Relay/Frames          #onPeerFrame, #onOoc and #onPersona. Relay/Frames/Authorship, Confinement,
--                         Delivery and Quieting: who is named, who is heard, who is told, and what
--                         is not repeated.
--   Relay/Abuse           #noteFailure, #clearFailures, #isBlocked and the bans. Relay/Abuse/Blocking.
--   Relay/Handshake       the upgrade listener, #onHello, #onConfirm and #rejectSocket.
--                         Relay/Handshake/Entry and Overfull: who gets past HELLO, and the seats.
--   Relay/Housekeeping    the constructor, start, stop, rotate, kick, unban and sweep.
--   Relay/Server          #onConnection and #onSocketMessage: the relay under a sequence of events.
--                         Relay/Server/Rotation and Reseating: what a new code leaves behind.
--   Relay/Invariant       what holds in every state that is reached, with a file for each kind of
--                         step (Frames, Leave, Enter, Sockets) and their composition (Reach).
--   Code                  lib/protocol.js: the connection code. Code/Base32 is base32Encode and
--                         base32Decode on five-bit digits, Code/Letters the alphabet, the groups and the
--                         cleaning of a pasted text, Code/Body the address, port, key and checksum. Their
--                         children Roundtrip, Cleaning and Decoding hold the round trips. Code/Address is
--                         classifyAddress, isPrivateAddress and resolveAdvertisement.
--   Typing                lib/typing.js. Typing/Keepalive is about what this player owes to the others,
--                         Typing/Expiry about the indicators of the others.
--   Notice                lib/notice.js. Notice/Lifetime is about how long a notice stands.
--   Sync                  lib/parity.js: normaliseInstallUrl, buildSyncPlan and applyPlan. Sync/Plan says what
--                         a plan spares, Sync/Settling and Sync/Convergence that it makes reports agree.
--   Secrets               lib/crypto.js and server/lib/crypto.js: deriveSessionKeys, computeConfirmation and
--                         deriveRoomId of both sides. Secrets/Agreement compares the two.
--   Transport             lib/transport.js: SecureSocket. Transport/Lifecycle is connect, close and #onClose,
--                         Transport/Messages the handshake and the frames, Transport/Handlers the timers, send
--                         and the events. Fits, Invariant, Sealing, Quiet and Nonces are about the counters,
--                         Backoff about reconnection.
--   Transport/Meeting     SecureSocket against the relay's #onHello and #onConfirm. Success and Refusal are the
--                         two outcomes.
--   Chat                  lib/chat.js: RecentIds and the fields of ChatBridge. Chat/Mirror is what a client does
--                         with the frames about the chat, which lib/session.js passes to it. Chat/Transcript,
--                         Replica, Refinement and Convergence compare it with a transcript that knows no
--                         placeholders.
--                         Chat/Local is what goes out of a chat; Echo and Streaming are about what must not,
--                         Memory about the ids that are remembered. Mirroring and Following put a host and a
--                         client together.
--   Cards                 lib/cards.js: streamAvatar and ChunkAssembler. Cards/Chunks and Parts are about the pieces
--                         of a file, Cards/Assembly and Arrival about what an assembler makes of them.
--   Tests, Tests/*        the theorems at concrete rooms, frames and texts.
--
-- How the code is rendered:
--   A handler is a function from the relay's state to the new state and the list of what it sends and
--   closes, in order. What a handler sends it sends at once: no event is placed between the sends that it
--   awaits. The one other wait of a handler of the relay, for the inflation of a compressed frame, is two
--   events, the arrival of the frame and the end of the inflation (begin_opening and end_opening of
--   Relay/Server); what comes between them may remove the peer, and the frame goes on without it. The
--   chain of promises of a socket lets no other frame of that peer come between. A message that the chain
--   still holds when its socket closes has its turn after the close.
--   A peer is an object that the code changes in place; the model puts the changed record back under
--   its id. A peer's id is the number that the counter had when it was made, without the random
--   suffix. A map is a list of its entries in order of insertion.
--   A clock, a random value, the result of openFrame and a decoded field are inputs. The cryptography
--   of node, which the repository does not implement, is the record Crypto, of which nothing is
--   assumed; Secrets makes it out of the record Primitives (ECDH, SHA-256, HKDF and HMAC), which WebCrypto
--   has too; that ECDH gives two fitting key pairs one secret is a hypothesis where it is needed. The text
--   encoder of the browser is the record Utf8, its URL class the record Urls, and SillyTavern's calls on
--   extensions the record Installer, whose documented behaviour, that an installation fetches the head of
--   a branch, is stated as Sync.Convergence.IsFaithful. A throw is an error value, or the branch that the
--   caller's catch runs.
--   Time is in whole milliseconds. Tokens of a bucket are counted in hundred-thousandths, in which
--   every rate of the code is whole. A character stands for a UTF-16 unit, and the text of a
--   connection code is the list of its units. Counters of frames, BigInt
--   in the code, are natural numbers.
--   Loops are recursions over a list. The `while` loop of base32Encode and the splitting of a code into
--   groups run on fuel, as many rounds as there are bits and letters, and each round takes at least
--   one of them away; the round trips are proved at that fuel.
--   The browser's socket has its events in any order, those of a replaced WebSocket and of a late timer
--   included. A handler that awaits is placed where it goes on. In Chat a missing date of a message stands
--   for the clock of the machine that shows it.
--
-- Not modelled: logging, the HTTP server, port mapping, the plugin's routes, encryption and
-- compression of frames, the buffer of a socket, the rendering and the saving of a chat, the user
-- interface and the parts of lib/ that are not named above.
pub mod Cards
pub mod Base
pub mod Protocol
pub mod Replay
pub mod Parity
pub mod Limiter
pub mod Relay
pub mod Tests
pub mod Typing
pub mod Notice
pub mod Code
pub mod Sync
pub mod Secrets
pub mod Transport
pub mod Chat
