-- ===== src/Lib.antt =====
-- Models of the distributed services of this repository (Go), and proofs about them.
--
-- Parts and files. `Raft` models 6.824/src/raft: Raft/State.antt the types, Raft/Log.antt and
-- Raft/Role.antt the helpers of common.go and raft.go with Start, Make and Kill, Raft/Persist.antt
-- the Persister and persist, Raft/Vote.antt RequestVote and Election, Raft/Append.antt the handler
-- AppendEntries, Raft/Leader.antt appendEntriesToPeer and LeaderCommit, Raft/Snapshot.antt
-- snapshot.go, Raft/Apply.antt Apply. The modules below these, and Raft/Total.antt, hold what is
-- proved of them. Raft/Handler.antt gathers all handlers in one relation, Raft/Ballot.antt and
-- Raft/Elect.antt say what they do to a peer's vote, and Raft/Cluster.antt is a cluster of peers in
-- which any peer runs any handler at any time on any request, and may crash and restart from its
-- disk. Raft/Cluster/Net.antt is that cluster without snapshots, where AppendEntries is given what
-- a leader has sent, and Raft/Complete.antt notes in it which logs the peers have accepted;
-- Raft/Complete/Polls.antt is that cluster where RequestVote, too, is given what was sent, and no
-- late reply with a newer term comes. `Kv` models 6.824/src/kvraft over a peer of `Raft`: Kv.antt
-- the server (requests, the loop over applyCh, snapshots), Kv/Clerk.antt its clerk. `Models` models
-- 6.824/src/models/kv.go, the specification that the repository checks histories against.
-- `ShardMaster` models 6.824/src/shardmaster: Config.antt its types, Adjust.antt adjustConfig,
-- Server.antt the server, Clerk.antt the clerk. `ShardKv` models 6.824/src/shardkv, whose servers
-- each stand over a peer of `Raft` and take configurations of `ShardMaster`: State.antt the types,
-- Store.antt waitApply.go and the snapshots, Requests.antt Get and PutAppend, Migrate.antt
-- FindConfig and migration.go, Clerk.antt the clerk. `Mr` models 6.824/src/mr: Master.antt the
-- master, Worker.antt the worker; and the programs around it, Sequential.antt main/mrsequential.go
-- and Apps.antt mrapps/wc.go and mrapps/indexer.go, all under 6.824/src. `Labrpc` models
-- 6.824/src/labrpc, the simulated network: Network.antt its switches, Server.antt servers and
-- services, Request.antt Call and processReq, System.antt all requests at once. The other models do
-- not build on it: there, a call gets any reply. `Base` holds numbers, lists, maps and the chain of
-- steps that can panic.
--
-- How code corresponds to definitions. A handler is a function from the state to the new state and
-- the reply, in `Option`: `none` is a Go panic, an exit of the process or a send that waits, as the
-- comment there says. Definitions have the names of the Go functions in snake case; a function that
-- makes an RPC is split in two at the call, so that other steps can come between, and one that
-- gives its lock up on the way is split there where the model is about those steps: the requests of
-- the servers, whose place is a `Stage`, FindConfig, and the goroutines of FindLeader, whose tests
-- and writes are steps of their own. Structs are records, maps are association lists or functions,
-- and Go's `int` is a natural number except where the code stores -1 or subtracts: there it is `ℤ`.
-- Integers do not overflow. Strings are texts of characters. Timers are lists of what the code
-- asked for, and the channel that wakes Apply is the count of its notices, at most ten. The
-- encoding by labgob is a parameter: an encoder, a decoder, and that decoding gives back what was
-- encoded; for the shards of shardkv, a map that was nil comes back empty. Maps are values, but for
-- the map that a Migration brings to a shard, which is also that of the entry in the log of raft:
-- `shared` has its index, and a write to the shard changes the entry. The order in which Go
-- iterates over a map is a parameter of adjustConfig, `Orders`; elsewhere no result depends on it.
--
-- Loops run on structural recursion over lists, or on a count that is the number of rounds the code
-- makes (commit_loop, collect), so no fuel can run out. groups_of of the worker takes the number of
-- pairs as fuel, and each of its rounds drops a pair; itoa takes one more than its number. The
-- loops of the clerks have no bound in the code: they take a number of rounds, and say whether they
-- have ended.
--
-- Parameters. Of code outside the repository the models take: the encoding, the hash of hash/fnv,
-- sort.Sort and sort.Strings with what they promise, the functions of a MapReduce application,
-- unicode.IsLetter, random numbers, and the replies of calls. A file of JSON is the list of the
-- values encoded into it.
--
-- Not modelled: requests to AppendEntries that are under way and share entries with the leader's
-- log; labgob, which wraps encoding/gob; the programs that start servers, the plugins that crash or
-- sleep, and the test harnesses; the copied checker in porcupine; and locks: each step of a model
-- holds the lock that the code takes, and races within code that runs without one are not seen, but
-- for that of FindLeader.
pub mod Base
pub mod Raft
pub mod Mr
pub mod Models
pub mod Kv
pub mod ShardMaster
pub mod ShardKv
pub mod Labrpc
