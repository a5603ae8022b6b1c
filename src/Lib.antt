-- ===== src/Lib.antt =====
-- gedis, a Redis server in Go: the parts of it that carry its own logic, and what holds of them.
--
-- The server reads commands from clients and writes replies in the RESP protocol
-- (internal/protocol). A master keeps its latest writes in a backlog and hands them to its replicas
-- through a hub (internal/replication). Sentinels watch the master by probes, vote for a leader
-- among them, and the leader promotes a slave (internal/sentinel, with the vote count of
-- cmd/gedis/sentinel_auto.go). In a cluster, every key has a slot and every slot an owner
-- (internal/cluster). The command handlers (internal/commands) keep each value under its key with
-- the prefix of its type, as an entry that internal/datastruct encodes, in a key-value store
-- (internal/storage), which counts the memory in use and evicts keys.
--
-- The files:
--   Base           lists, bytes, integers with Go's wrap-around, maps, results, decimal text
--   Protocol       internal/protocol. Value is value.go; Encode is Append of encode.go; Reader and
--                  Decode are decode.go; Hello is ParseHello of hello.go. Encode/Wire is the wire
--                  format that Append is proved against, Wellformed says which values it carries,
--                  Hello/Accepts what a HELLO command is.
--   Replication    internal/replication. Backlog is backlog.go, Hub is hub.go. Backlog/History says
--                  what the backlog holds of a history of writes; Hub/NoGap/Steps is the relation of
--                  the steps that threads take at the hub's locks.
--   Sentinel       internal/sentinel. Registry is spec.go and registry.go, Vote is election.go,
--                  adopt.go and the vote count, Probe is sdown.go and odown.go, Select is
--                  select.go, Failover is Failover of registry.go and auto.go. Answer is a peer's
--                  answer to a vote request (isMasterDownByAddr of internal/commands/sentinel.go) and
--                  its reading by QueryPeer of peer.go. Promotion/Meaning says which slaves
--                  may be promoted, and in what order. Address is what they use of Go's net package.
--   Cluster        internal/cluster. Slot is slot.go; Topology and Migration are topo.go; Persist is
--                  snapshot.go.
--   Datastruct     internal/datastruct. Entry is codec.go, ListCodec, HashCodec and SetCodec are
--                  list.go, hash.go and set.go, Strings the strings with their lengths in them.
--                  Uvarint is what they use of Go's encoding/binary.
--   Commands       internal/commands. Store is the KV interface of string.go and its laws, Lookup is
--                  lookupRaw of keyspace.go, Keyspace its TYPE, EXISTS and MOVE, Lists is list.go
--                  and list_mod.go (Ends, Ranges, Edits and Moves; Stored and Written say what a
--                  store shows of a list), Counters is string_incr.go.
--   Storage        internal/storage: memory.go, and Set, Get and Delete of pebble.go. Policy is the
--                  choice of the key that goes, Eviction the loop; Unlimited makes it a store as
--                  Commands uses one.
--   A file named Tests holds runs at concrete inputs.
--
-- How the code is modelled:
--   - A method that changes its receiver is a function from the old state to the result and the new
--     state. A (T, error) is a Result; a run-time panic is a value of its own there.
--   - int and int64 are integers whose sums wrap at 64 bits; uint64 and uint16 are natural numbers
--     with the wrap written out. Strings and byte slices are lists of bytes.
--   - Decode reads from a list of the bytes that the bufio.Reader has not delivered. It recurs on
--     fuel, one more than the number of these bytes, which is enough since each value takes a byte
--     at least. Go's make panics above 2 ^ 48 bytes (linux on amd64), a Value has 136 bytes.
--   - A float64 is its bits; how strconv prints and reads it is the parameter FloatText, of which
--     the round trip supposes FloatLaws: what it prints has no line end and reads back.
--   - A lock that a method holds makes it one step. Publish takes two locks one after the other,
--     so it is two steps in Hub/NoGap/Steps; pending, received and log there are history that the
--     program does not keep. The sentinel's methods are modelled as single steps.
--   - A Go map is a function, or an association list in the order that a loop visits. Only
--     isMasterDownByAddr depends on that order, where two masters have one address, and the order of
--     the lines of a written snapshot.
--   - sort.Slice is an insertion sort. Slaves that compare equal are the same; ranges of a node that
--     start at one slot keep their order, on which the slots that the node gets do not depend.
--   - A handler is a step on the store, the calls of Notify so far and the count of expired keys. The
--     store is the record Kv of its Get, Set and Delete, as functions on a state of any type; KvLaws
--     says what a store without failures shows. The clock is one instant for a handler's run. A
--     Go map that a codec ranges over is an association list, sorted before it is written.
--   - The Pebble database is the record Engine. The order in which a loop visits the tracked keys and
--     the random draws are the record Outside of Storage; a method of the store is one step, its
--     context is not cancelled. The eviction loop recurs on fuel, one more than the number of tracked
--     keys, which is enough since each round removes one. The calls of the hooks and of Hub.Publish
--     are a list.
--   - strings.ToUpper is modelled as far as it gives ASCII letters.
--   - REPLICAOF and ROLE, which sentinels send to nodes, and the clock are the record Outside. SHA-1,
--     from which a node's id is derived, is an argument of build.
--
-- Not modelled: network connections, timers and goroutines apart from the steps above; the commands
-- on strings, hashes, sets, sorted sets and streams, and those that block; INCRBYFLOAT; batches,
-- scans and snapshots of the storage, and the choice of its policy by name; the encodings of sorted
-- sets and streams; scripting, access control, configuration and export; the sentinels' gossip; the
-- keys of a command.
pub mod Base
pub mod Protocol
pub mod Replication
pub mod Sentinel
pub mod Cluster
pub mod Datastruct
pub mod Commands
pub mod Storage
