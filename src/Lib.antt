-- ===== src/Lib.antt =====
-- pggat, a connection pooler for PostgreSQL: clients take server connections from a pool for the
-- time of one transaction.
--
-- The parts modelled here, bottom up:
-- * lib/util/ring (Ring): `Ring` is the struct with its buffer, head, tail and length. grow, incHead,
--   decHead, incTail, decTail, PopFront, PopBack, PushFront, PushBack, Clear, Get and MakeRing are
--   functions of the same names in snake case; a panic of Go is `none`.
-- * lib/util/slices (Slices): Remove, Delete, Index, Contains and Equal. A slice that fills its array
--   is a list; a result carries the shorter slice and the array it shares.
-- * lib/gat/handlers/pool/poolers/lifo (Pooler, Pooler/Lifo): `Pooler` is the struct; the ring of
--   waiting channels is the list `waiters` of its contents. Each critical section under the lock is
--   one function (`acquire_start`, `acquire_receive` and `acquire_timeout` for Acquire; `release`,
--   `add_server`, `delete_server`, `close_pooler`), and Pooler/Lifo/System runs them as events in
--   any order on a heap of channels (Pooler/Chan). Goroutines, timers and contexts are the order of
--   the events. The servers a channel holds and the closing of channels follow Go: a send on a
--   closed channel and a second close are panics, a send on a full channel blocks for ever.
-- * lib/fed (Fed): `Conn` is a connection as the list of the results that its reads still give and
--   of the results that its writes still give; a packet is its type byte with its bytes. What the
--   network does is thus a parameter of every theorem.
-- * lib/bouncer/backends/v0 (Backends): the binding of a server to its peer (context.go, with a peer
--   that may be absent) and the loops of query.go: copyIn, copyOut, query, functionCall, sync, eqp
--   and transaction. A loop is the Go loop on fuel; a read takes one result off a connection, so the
--   number of the results left bounds the rounds, and is the bound chosen for the fuel. In the
--   loops the state byte TxState is a field of the binding.
-- * lib/fed/middlewares/eqp (Eqp): `State` holds the prepared statements and portals of a connection
--   as maps (Base/Maps: the value at each key, and the keys in the order of a range) and the packets
--   that wait for an answer as lists, the contents of the rings. A `Message` is a packet with what
--   fed.ToConcrete makes of it. Eqp/Sync is SyncMiddleware over a server connection whose writes
--   may fail; the call of backends.Sync is its argument, and Eqp/Replies gives one for a server that
--   completes all it is sent, and Eqp/Refuse one that refuses a Parse of a name in use. Eqp/Turns sets
--   the state beside a backend, a table of its own that executes what a client sends.
-- * lib/fed/middlewares/ps (Ps): the parameters that client and server have, as maps, and Sync and
--   SyncMiddleware as loops over their keys. strings.ToLower and the call of SetParameter are
--   arguments; the client connection is what its writes return.
-- * lib/util/strutil/escape.go (Strutil), lib/perror (Perror) and lib/gat/handlers/pool/recipe.go
--   (Recipe): Escape on lists of runes, the packets of errors, and the counting of servers, where a
--   count below 0 is `none`. lib/util/maps/rwlocked.go (RwLocked) is a map whose lock makes each
--   method one step. SetParameter, which uses Escape, is in Backends/Parameter.
-- * lib/util/rbtree (Rbtree): a `Tree` is a node with its children as values, since every node has
--   one parent; `none` is a panic. Delete goes down a tree that it rotates as it goes, so it takes
--   fuel; the number of the nodes is the bound chosen. Rbtree/Depth runs any sequence of calls.
--   Rbtree/Order has the lists of entries that the operations are compared with.
-- * lib/rob/schedulers/v3 (Rob): `Scheduler` is the struct, with the schedule as a `Tree` of jobs
--   by stride and with heaps for the users, workers and channels that pointers lead to. Each
--   critical section is one function of the name of its method in snake case (`acquire_start`,
--   `acquire_receive` and `acquire_timeout` for Acquire), and Rob/System runs them in any order.
--   Strides and times are natural numbers of nanoseconds. The search for a slot and the loop of
--   Close take fuel, one more than the size of the schedule. `tree_fails` is a panic in the tree or
--   the end of the fuel, `fails` a panic on a channel or a wait under the lock that nothing ends.
-- * lib/fed/encoder.go and decoder.go (Codec): `Encoder` and `Decoder` are the structs, each with
--   the filled part of its buffer as a list of bytes. The writer has the outcomes of its next
--   writes, and the reader the chunks that the network gives, never bytes together with an error.
--   packetLength + 4 is kept in the place of packetLength, since a length below 4 makes that
--   negative. The loop of String takes two rounds more than the string has bytes for its fuel; those
--   of readFull, discard and String of the decoder take a round for each byte and chunk, and one or
--   two more.
-- * lib/gat/handlers/pool/spool (Spool): ScaleDown of the pool of servers with Ignite of its kitchen,
--   which asks the recipe whether a server may go (Recipe). The range over the servers is over the keys
--   of their map, in any order.
--
-- How they interact: a pool acquires a server from the LIFO pooler, runs the transaction of Backends
-- with it, and releases it to the pooler, which hands it to the client that has waited longest (a
-- channel off the front of the ring) or keeps it on top of the stack of idle servers. The rob
-- scheduler may stand in the place of the LIFO pooler; it keeps its jobs in the red-black tree.
--
-- Bounds: sizes are natural numbers; Go's int does not overflow for a buffer that fits in memory.
--
-- Not modelled: network I/O, TLS, authentication (cryptography of third parties), configuration and
-- the Caddy app, discovery, metrics and tracing; the other middlewares, and the
-- rest of the kitchen and of the pool of servers.
pub mod Base
pub mod Ring
pub mod Slices
pub mod Rbtree
pub mod Rob
pub mod Codec
pub mod Pooler
pub mod Fed
pub mod Backends
pub mod Eqp
pub mod Ps
pub mod Strutil
pub mod Perror
pub mod Recipe
pub mod Spool
pub mod RwLocked
