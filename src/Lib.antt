-- ===== src/Lib.antt =====
-- Turbopump, a distributed store of files: clients write over HTTP, each node stores what it gets
-- and passes it on along a ring of hashes, and nodes compare Merkle trees of what they hold. This
-- library models the program in src/lib/ and proves what holds of it.
--
-- The parts, in the order in which a write meets them, and the files that model them:
--
-- - src/lib/user_server: UserServer/UserCommandContext models the callbacks of the HTTP parser
--   (UserCommandContext::onUrl, onBegin, onBody, onComplete) on the context's members; `serve`
--   makes the calls of one request.
-- - src/lib/user_server/UserPacketHandler.cpp is UserServer/UserPacketHandler.
-- - src/lib/api: Api/Dispatch is Api::command. Api/Instructions is Write and WriteInstructions,
--   Api/WriteCommand is the command, with `run`, `flush` and `commit`; the callback onCommit is an
--   argument. Api/PeerCommands is DeleteCommand, AddPeerCommand and RemovePeerCommand;
--   Api/NodeCommands is the commands that nodes send each other (AckWriteCommand,
--   OfferWriteCommand, DemandWriteCommand, KeyRequestCommand, SyncCommand) and DropCommand;
--   Api/StoreCommands is ReadCommand, CopyCommand, ListKeysCommand, WaitCommand and StatusCommand.
-- - src/lib/storage: Storage/Streams is what commands use of the streams, Storage/DataChain the
--   versions of a key in memory (DataChain::store and its kin), Storage/FileReader the reading of
--   a file, Storage/WriteStream writestream and its commit. Storage/SimpleFileStore is
--   SimpleFileStore: Complete is onWriteComplete and onDeleteComplete, Enumerate is enumerate,
--   Slots and Kept follow the four files of a key, Register is the register that a key refines and
--   Refinement and Order are proved with it. Storage/FileStore is FileStore. Both stand on the
--   calls of Storage/Files.
-- - src/lib/common: Common/VectorClock is VectorClock and KeyMetadata, Common/ClockText the text
--   of a version (toString, fromString), Common/MerklePoint that of a point.
-- - src/lib/callbacks: Callbacks/ComputedOptions says which callbacks run. Callbacks/MirrorToPeer
--   chooses the node that a write is passed on to, Callbacks/ChainWrite passes it on,
--   Callbacks/NotifyWriteComplete acknowledges it, Callbacks/ModifyPeer keeps the membership that
--   is written as files, Callbacks/Watches tells those who wait for a key.
-- - src/lib/hashing: Hashing/Ring is ConsistentHashRing, Hashing/LocateKeys is LocateKeys.
-- - src/lib/membership: Membership/Peer is Peer, Membership/KnownPeers is KnownPeers: a Peer is
--   known by its place in a store of peers, which the table of members and the map of addresses
--   share. History holds the updates and removals of a node.
-- - src/lib/peer_client and the stream of src/lib/peer_server: PeerClient/WriteSupervisor is
--   WriteSupervisor, over PeerClient/ConnectionWriteStream: store_to is `store` to a peer. Taking, Copied and Sent
--   follow the calls that it makes on a connection that blocks, Uploaded gives them to the write
--   command, and Buffered is the program's own writer of such a connection;
--   PeerClient/PartialTransfers is the queue of transfers of a connection;
--   PeerClient/MessageSender is MessageSender.
-- - the wire: Wire/DataBuffer, Wire/MessagePacker, Wire/PacketParser and Wire/BufferedWriter are
--   the classes of these names in src/lib/common, src/lib/peer_client and src/lib/peer_server;
--   Wire/Frames names the frames of a buffer.
-- - src/lib/peer_server: PeerServer/CommandRunner is PeerCommandRunner::parseAndRun, and
--   PeerServer/Scheduling the hand-over of buffers between threads (addWork, run, doWork,
--   shutdown) as a step relation: a state counts the threads at each place of the code.
--   PeerServer/CommandCenter is ConcurrentCommandCenter and PeerPacketHandler,
--   PeerServer/SocketPool is MultiplexedSocketPool and MultiplexedSocketWriter.
-- - src/lib/deskew: Deskew/DigestTree, Deskew/DigestIndexer and Deskew/KeyTabulator (with
--   UniversalDigestIndexer) index the keys; Deskew/KeyRange is KeyRange, with ByteOrder,
--   Prefix and Nested proved of it, and Deskew/Synchronizer compares the trees of two nodes; Deskew/SkewCorrector is SkewCorrector, which offers keys to other nodes
--   and drops what has expired; Deskew/Names is std::set and std::map over strings.
--
-- Prelude holds what all share: names of the standard library, Boolean tests on numbers, strings
-- as lists of bytes, and lemmas on lists and on the bits of numbers. Tests holds concrete runs and the theorems at concrete
-- inputs.
--
-- Conventions. A method takes its object and returns it changed; what a method returns comes
-- first. A pointer that may be NULL is an Option. Numbers are unbounded where the code cannot
-- reach the bound, and else `% 2 ^ w` stands where the code wraps around. Code that is not in this
-- repository is an argument: sockets and their writers, the circular map, the vector of clocks,
-- the Merkle tree, the hash, files and directories, the routing table, addresses, base 64, the
-- HTTP parser and URLs; what is assumed of it is a record of laws beside it.
--
-- Bounds and fuel. The loop of parseAndRun gets as much fuel as the buffer has bytes, and each
-- round takes three bytes or more. The loop of BufferedConnectionWriter::write is on fuel of the
-- bytes to be written; each round that goes on takes one at least. The loop of
-- WriteSupervisor::store gets the size of the file and one more; each round reads a byte at least.
-- PartialTransfers::run gets as much as there are transfers, and Synchronizer::randomPeerFromList
-- as much as there are locations, one of which each round takes away. The loop of ReadCommand gets
-- the size of the file and one more. SimpleFileStore::remove climbs as many directories at most as
-- the path has bytes. A number of n gets n + 1 rounds for its digits. The theorems on results hold
-- of the functions with that fuel, so that it is enough.
--
-- Not modelled: the calls of the operating system on files and sockets, which are arguments (a
-- call on a file may fail, and then changes nothing), locks (each operation is one step, except in
-- PeerServer/Scheduling), a store that the commands of different channels share (in
-- PeerServer/CommandRunner each command has its own state), logging, the id of this node and its
-- clock, the wrappers that hand calls to a scheduler, the wiring in src/lib/turbopump and src/exe/,
-- and serialization by msgpack.
pub mod Prelude
pub mod Common
pub mod Wire
pub mod PeerServer
pub mod Membership
pub mod Hashing
pub mod Callbacks
pub mod Api
pub mod Storage
pub mod Deskew
pub mod PeerClient
pub mod UserServer
pub mod Tests
