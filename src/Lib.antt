-- ===== src/Lib.antt =====
-- A model of floodsub, a libp2p pubsub protocol: the crate under floodsub/src, and what it uses
-- of common/src.
--
-- A node keeps the subscriptions of its own and of its peers in a router, and its connections in
-- a manager. The behaviour ties them together: the swarm reports connections to it, and the
-- handlers of the connections the frames that come in; it queues events for the application, and
-- commands for the handlers to send frames, which it cuts into pieces that fit first. A handler
-- drives one inbound and one outbound substream of a connection, until it is disabled.
--
-- The files, and the code that each models:
--   Behaviour      floodsub/src/behaviour.rs: the state and its queue, with one function per
--                  operation in Behaviour/Incoming, Outgoing and Swarm. The other children follow
--                  a call to what the handlers are told to send (Sending), for messages
--                  (Grouping, Receiving), whole frames (Assertions, Entries, Frames), connections
--                  (Connecting), own subscriptions (Subscribing) and publications (Publishing,
--                  Addressing), what one node sends to another that handles it (Network), and
--                  any history of a node (Steps, Safety)
--   Router         floodsub/src/router.rs
--   Connections    floodsub/src/connections: the data of a connection and the manager
--   Handler        floodsub/src/handler.rs: the outer handler, with the two that it drives in
--                  Handler/Simple and Handler/Disabled
--   MessageCache   floodsub/src/message_cache/cache.rs
--   Proto          floodsub/src/proto.rs: the protobuf messages; Proto/Validation and
--                  Proto/Fragmentation model validation.rs and fragmentation.rs of its folder
--   Frame          floodsub/src/frame: messages, frames and subscription actions
--   SeqNo, Topic, Config   floodsub/src/seqno.rs, topic.rs and config.rs
--   Prelude, Collections, Libp2p   what the components share: numbers, lists and orders, the
--                  collections of Rust's library as lists, and the identities of libp2p
--   MessageId      floodsub/src/message_id.rs
--   Heartbeat, Upgrade, Codec   common/src/heartbeat.rs, upgrade/simple.rs and
--                  codec/prost_protobuf.rs
--   Network        no file of its own: many nodes of behaviour.rs, with a wire for each two of
--                  them, and the steps that may happen in it (Reachable); what is said
--                  of subscriptions (Words, Agreement, Honesty, Polls, Receptions, Forgetting,
--                  Disconnection, Convergence, Settling) and of publications (Hearing,
--                  Exchange, Draining, Delivery), what comes of the handlers' order
--                  (Reordering), and of messages that were seen before (Hops, Circulation)
--   Fixtures       data for the examples
--
-- State is a record, and an operation a function that returns the new state. A call that can
-- panic returns an `Outcome`; a debug assertion that fails is a panic. The debug assertions of
-- the conversion of a message and of `propagation_routes` are functions beside those, which the
-- callers assert. Numbers are natural numbers; sequence numbers are cut to 64 bits, and counters
-- and lengths of memory are not. Times are numbers, and a call gets the readings of the clock as
-- arguments. A hash map is an association list in the order of insertion; the theorems are about
-- what is found under a key. Log output is left out.
--
-- The loops of the handler's poll run on fuel: two turns for the inbound loop, which turns at
-- most once from reading to closing, and three for each queued frame and four more for the
-- outbound loop, since a frame takes three turns and each of them makes a measure smaller.
--
-- In a network a wire stands for the two handlers and the transport between two nodes. The
-- handlers do not keep the order of frames that wait in them together (Handler/Simple/Order, and
-- what comes of it in Network/Reordering), so a node is polled for a frame only when the wire to
-- that peer is empty: at most one frame at a time is under way from a node to another, and
-- whether a handler sends its newest or its oldest frame first makes no difference. Of frames
-- that wait together only Network/Reordering speaks, and nothing is said of a network where a
-- handler is disabled and loses them. A node counts one connection to another at most, which
-- ends for both nodes at once, when neither has an event queued; a single node (Behaviour/Steps)
-- is not so restricted. A node is polled as often as it has events queued; a poll of a codec's
-- stream reads one message more than there are at most, which is enough to find that none is
-- left.
--
-- Foreign code is an argument: the lengths of encoded messages (`Sizes`), the bytes of peer ids
-- (`PeerIdBytes`), framed streams (`Framed`), the swarm's view of a connection event
-- (`EventKinds`), the linked hash map of the cache (`LinkedHashMap`), the digest of a topic,
-- random numbers, the base58 text of a peer id, the ticker of the heartbeat (`Ticker`), the
-- framing of the codec (`UviBytes`) and its protobuf encoding (`Prost`).
--
-- Not modelled: the codec of common/src/codec/quick_protobuf.rs, which is rust-libp2p's, the
-- generated protobuf code, string conversions and displays, the helpers of the tests in
-- common-test/src, and tests.
pub mod Prelude
pub mod Collections
pub mod Libp2p
pub mod Topic
pub mod Router
pub mod Connections
pub mod MessageCache
pub mod Proto
pub mod SeqNo
pub mod MessageId
pub mod Heartbeat
pub mod Upgrade
pub mod Codec
pub mod Network
pub mod Frame
pub mod Handler
pub mod Config
pub mod Behaviour
pub mod Fixtures
