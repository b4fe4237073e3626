-- ===== src/Lib.antt =====
-- A model of the core of OpenBroadcastNetwork, a peer-to-peer network that relays live streams, and
-- the theorems that make it correct.
--
-- The parts, with the code that each models (paths from the repository's root):
--
-- - Relay, core/src/overlay/relay: a node that gets the chunks of streams and hands them on. Chunk has
--   the data (types.rs, config.rs), Stats the counters (stats.rs), Stream one stream with its bounded
--   buffers and what it keeps for late joiners (stream.rs). Node has the handlers of node.rs, from
--   `process_chunk_internal` to the rounds of the two periodic tasks; Node/Tasks has the channels,
--   `start`, `stop` and the relation `Step`: calls of clients and rounds of the four tasks, in any
--   order; `stop` asks for the ends of tasks, which come later. A handler runs to its end in one
--   step, and a task is cancelled between two rounds only.
-- - Overlay, core/src/overlay: the tree that a stream is distributed by. Tree/Node is `TreeNode` and
--   Tree/Stream and Tree/Rebalance are `StreamTree` of tree.rs; Tree/Steps is the life of a tree as a
--   relation. Geo is `GeoLocation` of topology/geo.rs, Peer the roles of peer.rs. Floats is the
--   arithmetic of `f32` and `f64`. Mesh is the mesh that a stream falls back on (mesh/network.rs).
--   Topology is the manager of the trees of all streams (topology/manager.rs), Topology/Health the
--   health of connections (topology/health.rs), and Topology/Steps the life of a manager as a relation
--   of calls and background steps.
-- - Moderation, core/src/moderation: the block list, the whitelist and the flags of one node. Types
--   and Manager have the code, History the runs of calls and what the latest calls say, Changes what
--   a call makes of each list.
-- - Media, core/src/media: Segment has segments and the builder that numbers them (segment.rs), Wire
--   their form on the wire (wire_format.rs). Mp4 has the data of an MP4 file, the parsers of the sample
--   table boxes and the resolution of samples to places in the file, and Mp4/Tracks the filters of
--   moov and mvex boxes (mp4_parser.rs). Fragment is the parser of top-level boxes
--   (fragment_parser.rs), Fragment/Writer the writer of segments for a player (fragment_writer.rs).
-- - Pubsub, core/src/pubsub: Message has messages on topics (message.rs), Validation the validators
--   that they pass: by size and publisher, by rate, wire format and sequence, and composites of any
--   validators (validation.rs).
-- - Prelude: numbers, lists, equality tests, and maps and sets as lists. Each part has a module of
--   runs on small inputs, Tests.
--
-- How the parts meet in the program: the topology manager owns a tree for each stream and says which
-- peers a node serves; the relay node sends them the stream's chunks, which are segments from the
-- media code; the moderation manager says which peers may connect.
--
-- Numbers are natural numbers. An addition on u64 or usize wraps at 2^64, as in a release build
-- (`add64`); saturating subtraction stops at 0. `HashMap` and `HashSet` are lists that are read by an
-- equality test, in the order of the list; the program's order is not fixed, and the theorems hold
-- for every order of the list. An `Instant` is a number and each reading of the clock an argument.
--
-- Parameters, for what is not in the repository: the type of peer ids with its equality test
-- (libp2p), floating-point arithmetic (`Floats`), the chunk handler that a client installs, the text
-- of a stream id (`display`), of a peer id and of a JSON value, hex::encode, bincode, blake3, JSON and
-- the file system. Where a theorem needs something of them, it is a hypothesis of the theorem.
--
-- Loops are structural recursion, except that of `get_path_to_peer`, which climbs from parent to
-- parent and has fuel for its rounds, and that of the box parser, where a round for each byte and one
-- more are enough.
--
-- Not modelled: libp2p, WebSocket and WebRTC glue, discovery, metrics, gossipsub, codecs and codec
-- strings, the conversion of MP4 files, the media pipeline, the node program with its web server.
-- Of the relay and the tree, logging and read-only statistics are left out, and the texts of errors.
pub mod Prelude
pub mod Relay
pub mod Overlay
pub mod Moderation
pub mod Media
pub mod Pubsub
