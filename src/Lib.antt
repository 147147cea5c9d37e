-- ===== src/Lib.antt =====
-- A model of a distributed lock service on a replicated log.
--
-- A cluster of nodes keeps one log by a variant of Raft. An entry of the log carries a command: the put
-- or the deletion of a key, or a new state of a lock. Every node applies the committed entries to two
-- state maps. The leader takes the requests of clients for locks, keeps for each lock a queue of those
-- who wait, and appends entries; its peers store them.
--
--   Prelude    tests on numbers, lists, machine words, texts
--   Exec       calls that mutate an object and may fail: the result beside the state. The state comes
--              back beside an error too, so what was written before the error is kept
--   Dict       maps with texts as keys
--   Util       utils/util.go
--   Storage    the package storage. Codec: the records that are encoded, and the encoders as a
--              parameter with their documented laws. Command: command.go, command_impl.go. LogEntry:
--              log_entry.go, with Frames for entries on disk. LogMemory: log_memory.go, with Files for
--              the log on disk. Disk: the verbs of fmt and io that they use. StateMap:
--              statemap_memory.go and statemap_memory_impl.go, with one module for each map
--   Node       the package node. Acquirement: dlock_acquirement.go. Context: node_context.go. State:
--              the node, BecomeFollower and commitProcedure of node.go. Interchange:
--              dlock_interchange.go, with Acquire for AcquireDLock and RefreshAcquirementBySequence
--              and Release for ReleaseDLock, and Expiry for the scan of the lock map. P2pServer: the
--              services of p2p_server.go. Replication: the handling of the answers in
--              SendAppendEntriesToPeers of node.go; Replication/Requests builds its requests.
--              Election: the detector of elections, the collection of votes, BecomeLeader and the
--              start of a node of node.go, with Runs and Safety for a whole cluster. Recovery:
--              backupProcedure and NewNode of node.go, and peer.go. ClientServer: clisrv_server.go,
--              with DLocks for the services for locks.
--              Messages: what nodes send to each other. Config: node_config.go. Connection: what
--              p2p_client.go and clisrv_client.go have in common; P2pClient and CliSrvClient: their calls
--   ClientApi  dlock_api/dlock_raft_client_API.go, with Rounds and Locks for its calls for locks
--   Tests      a codec, and the theorems at concrete inputs
--
-- Functions keep the names of the source in another spelling. A Go function that returns an error is a
-- function into a result, and one with a pointer receiver takes and gives back the object. A nil pointer
-- is `none`; a dereference of nil is the error `go_panic`. Numbers are natural numbers, with the
-- wrap-around of uint32, uint64 and int64 written out where the source adds or subtracts; an int64 is
-- its bit pattern and is compared by shifting. Time is an argument. The mutex of a node is held through
-- each modelled call, so a call is one step; the goroutines that a step starts are only listed.
--
-- A loop over a range of numbers is recursion on its number of rounds, which is the length of the range,
-- so no fuel can run out. The loops over pending acquirements take their rounds from the two counters;
-- the theorems on them assume that the counters stay below the wrap-around of uint32.
--
-- The loop that reloads a log from disk takes fuel, one more than the bytes of the file, and each round
-- reads a byte at least. Frames are printed as fmt documents for nonnegative numbers, and scanned with
-- a sign or without one; that a slice of the scanned length needs memory is left out. The count of bytes that comes beside an error, and a response beside an error, are dropped,
-- as their callers drop them. A panic is a result like an error where a caller only passes errors on.
--
-- The iteration over a Go map is a list of its keys, in any order. What a goroutine does between two
-- calls that wait is one function, and the variables that goroutines share are a record; between two
-- such steps the rest of the node may change. The mutex is a flag of the services for clients.
--
-- The functions of grpc and the generated stubs are the fields of records that act on a world, of which
-- nothing is known but what a theorem assumes; a clock reads the time from it. The fuel of the client
-- API bounds how often a call is redirected. What wakes its loops is a list of ticks.
--
-- Not modelled: the network, the generated code of protobuf, the reading of files and yaml, logging, the
-- loops of the nodes that only wait on a timer or a channel and then take a modelled step, and the set-up
-- of the servers.
pub mod Prelude
pub mod Exec
pub mod Dict
pub mod Storage
pub mod Util
pub mod Node
pub mod ClientApi
pub mod Tests
