-- ===== src/Lib.antt =====
-- HT2MP: the protocol and the coordinator of a multiplayer mod.
--
-- A client sends packets to the coordinator (apps/coordinator), which admits players, relays
-- their states and sends snapshots; clients apply them to the game through the bridge. All
-- packets have the format of include/ht2mp/protocol, which src/protocol implements.
--
-- Protocol: the wire protocol.
--   Types (types.hpp and the structs of replication.hpp), Float (what the code asks of float and
--   double), Replication (the rest of replication.hpp), Utf8 (is_valid_utf8, with the
--   encoding of RFC 3629 in Utf8.Encoding), Validation (validation.hpp and validation.cpp),
--   Writer, Reader and Codec (codec.hpp and codec.cpp).
--   Vehicles is the catalogue of vehicle_catalog.hpp and .cpp, with limits_for_profile (Limits) and
--   the two kinds of selectors (Lookup, Native).
--   Each function keeps its name; an overload of validate has the name of its argument added.
--   Ranges says which values fit the C++ types, and Wire has the lemmas on what is written and
--   what is read: Words and Reads for integers, Structs for the records of a message, Sizes for
--   how long they are, and Canon, CanonWords and CanonStructs for what a read leaves no choice of.
-- Coordinator: apps/coordinator. Session is the class Session (session.hpp and session.cpp):
--   State is its state, Joining is accept, Updates is receive, Periodic is disconnect and tick.
--   A method takes the session and returns its answer and the session after it. Peers is the
--   unordered_map of the peers. Admission and Welcome say who is admitted and who is told of it,
--   Routing what goes to whom. Runs has the histories of calls.
-- Bridge: the library in the game's process. Registry is RemoteActorRegistry
--   (bridge/remote_actor_registry.hpp and .cpp), with its invariant (Invariant), the counter of
--   generations (Generations), Find and Erase (Lookup) and histories of calls (Runs). Queue is
--   RemoteCommandQueue (bridge/remote_command_queue.hpp and .cpp): the FIFO of one player (Order), and the whole queue
--   (Commands) by what is pending of each player (Pending). States is PushState, with its steps in
--   Pushing and Accepted, Controls is PushSpawn and PushDespawn, Drains is TryDrain, Invariant and
--   Runs are for histories of calls; a call is atomic, as its thread holds the lock. Horn is
--   HornPlayback (bridge/horn_playback.hpp), World the life cycle of bridge/online_world_policy.hpp and .cpp, and
--   ActorList the rest of these files, where Walks is the walk of ValidateOnlineActorList, and Links
--   and Sound say what a sound list is.
-- Ipc: the frames between the sidecar and the bridge (src/ipc, include/ht2mp/ipc). Payload has the
--   methods of PayloadWriter and PayloadReader, Frame has encode_frame and decode_frame, Messages has
--   the payload of each kind of frame (Sample: that of a player's sample), and Authentication has
--   authenticate_bridge_hello. A writer returns the bytes it has written, or none for false.
-- Game: FindAllMasked of src/game/pattern.cpp (Pattern), and what it finds (Pattern.Search).
-- Sim: accept_server_message of apps/sim/server_protocol.cpp (Server), and when its state changes
--   (Server.Phases).
-- Tests: sample messages, sessions and actors, and the theorems at them.
--
-- Integers are native numbers, and arithmetic that can wrap has its `% 2 ^ w` written out.
-- Signed integers, floats and doubles are their bit patterns. A comparison of floats is computed on
-- the pattern; the arithmetic of doubles is the parameter Protocol.Float.Arithmetic, of which
-- no law is assumed. A string or a token is the list of its bytes.
--
-- Fuel: valid_from takes as much as there are bytes, and each round takes a byte at least; chunks
-- takes one more than there are players, and each round but the last takes three; the walk of an
-- actor list takes as many steps as its maximum of nodes, as the source does.
--
-- Not modelled: the query peer of the session; RemoteCollisionIndex of the bridge, a sequence lock
-- whose relaxed loads and stores no order of whole steps stands for; the timeline of include/ht2mp/protocol/interpolation.hpp, the sockets and the
-- command line of the coordinator, the rest of the bridge, which works on the game's memory, and the
-- programs that are mostly operating system calls (client, launcher, injector32, the rest of sim,
-- tools).
pub mod Prelude
pub mod Protocol
pub mod Coordinator
pub mod Game
pub mod Sim
pub mod Ipc
pub mod Bridge
mod Tests
