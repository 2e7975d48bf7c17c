-- ===== src/Lib.antt =====
-- A model of didcomm-prober, an agent that sends messages to its peers over DIDComm and runs groups
-- with publish and subscribe, and what holds of it.
--
-- The parts. An agent invites another one by an out-of-band URL (didcomm/invitation/handler.go);
-- the two exchange a connection request and response (didcomm/connection/handler.go) with their DID
-- documents (didcomm/did/handler.go), packed for the receiver's key (crypto/packer.go,
-- crypto/cipher.go); the keys are kept per connection (crypto/keys.go). prober/agent.go drives the
-- exchange and sends messages to connected peers through the request and reply sockets of
-- reqrep/zmq. Groups keep their members in pubsub/stores/group.go with a checksum of
-- pubsub/validator/init.go, by which a joining member tells whether the members agree.
-- pubsub/agent.go creates, joins and leaves groups and sends to them, pubsub/processor.go handles
-- the messages of other members, and both ask the two listeners of pubsub/transport/zmq.go to
-- connect and subscribe. The data messages of an ordered group carry the stamps of
-- pubsub/syncer.go, and travel over the topics of pubsub/transport/zmq.go. cli/runner.go reads
-- commands and calls prober/agent.go and pubsub/agent.go.
--
-- The files. Prelude: texts as lists of bytes, maps as association lists, integers with
-- wrap-around, results with errors and panics as values, and methods that change a state
-- (Prelude/Exec). A `range` over a map takes its order as an argument, a permutation. Domain:
-- domain/definitions.go, domain/models and domain/messages. Crypto/Keys: crypto/keys.go.
-- Crypto/Cipher: crypto/cipher.go. Crypto/Packer: crypto/packer.go. DidComm/Did,
-- DidComm/Invitation, DidComm/Connection and DidComm/Discovery: the handlers below didcomm.
-- Prober/Peers: prober/peers.go and prober/dids.go. Prober/Agent: prober/agent.go, `accept` for
-- Accept, `process_conn_req` for processConnReq and so on; its child Exchange has the exchange of
-- DIDs, where `request` and `response` are what the two functions do before they send, and
-- `listen_turn` is one turn of listen. ReqRep/Server and ReqRep/Client: reqrep/zmq/server.go and
-- reqrep/zmq/client.go; `turn` is one turn of the loop of Start, and `send` is Send with the
-- sender's goroutine. PubSub/Validator: pubsub/validator/init.go. PubSub/Syncer: pubsub/syncer.go.
-- PubSub/Stores: pubsub/stores; its child Group/Refinement has the abstract table of who is in
-- which group. PubSub/Transport: pubsub/transport; Topics has the names and frames of zmq.go,
-- Sockets what zmq.go does at a SUB socket, Auth auth.go, Listeners the two loops of zmq.go
-- (`state_turn` and `data_turn` are one turn of listenState and listenData), Connector the
-- goroutines that publish (`connector_turn` and `publisher_turn` are one turn of initConnector and
-- publisher), Requests the requests of processor.go to them, and Replies the reply channels of the
-- two, as a step relation of requesters and listeners. PubSub/Node: the state of the group agent,
-- what it calls, and pubsub/packer.go. PubSub/Processor: pubsub/processor.go, one function per
-- handler; its child Acks has the acknowledgement channels. PubSub/Agent: pubsub/agent.go, with
-- `join` for Join in Agent/Join. PubSub/Views: what any sequence of calls and messages makes of a
-- node. Start: bootstrap.go, main.go and the constructors that they call. Cli: cli/runner.go;
-- Console has what is read and shown, Commands one function per command, and Loop the two functions
-- that call each other. Examples: concrete runs.
--
-- Parameters. libsodium, SHA-256, the base encodings, encoding/json, compression, random values,
-- clocks, and the sockets are arguments; a theorem that relies on them states what it relies on.
-- The padding of a nonce to 24 bytes has fuel 25, one for each length that it passes. Join sends
-- its hello message until all members have acknowledged it: `tries` is how often a run lets it, and
-- the answer `waiting` says that the call has not come back yet. The command
-- line need not end; its fuel counts turns, and one more turn than there are lines to read is enough
-- whenever it does.
--
-- Concurrency. A handler or a call runs alone but for its waits, where the field `others` of
-- GroupEnv is what all other goroutines make of the node; the goroutines of Join, one for each
-- member, run one after another. The listeners and their requesters interleave freely in
-- Transport/Replies.
--
-- Not modelled: the creation of sockets and goroutines, which ends the process when it fails, the
-- authenticator of libzmq beyond whether it runs and the list of keys that it accepts, the channels
-- that SyncAccept waits on, the HTTP transport, the test interface, how the arguments of the
-- process are parsed, the signal that stops it, the layout of the console's output, letters and
-- white space beyond ASCII at the console, logging, and the evaluation scripts.
pub mod Prelude
pub mod Domain
pub mod Cli
pub mod Crypto
pub mod DidComm
pub mod Prober
pub mod ReqRep
pub mod PubSub
pub mod Start
pub mod Examples
