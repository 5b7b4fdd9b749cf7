-- ===== src/Lib.antt =====
-- The protocol stack of lab4: an overlay of hosts, a network layer (MNP) that routes packets by
-- distance vectors, and a transport layer (MRT) with a server and clients.
--
-- The processes talk over TCP streams, on which structures are framed by "!&" and "!#". The
-- transport process gives segments to the network process (lab4/common/seg.c), which puts them
-- into packets for the overlay process (lab4/common/pkt.c) and takes packets from it. The network
-- process keeps three tables (lab4/network), built from lab4/topology, and changes them by the
-- route updates that the nodes broadcast.
--
-- Wire/Layout: the structures of lab4/common/pkt.h and seg.h, and their bytes.
-- Wire/Frame: the state machine that every receiver runs, a byte at a time, and its end.
-- Wire/Packets, Wire/Segments: the senders and receivers of lab4/common/pkt.c and seg.c. A stream
--   is the list of its bytes; its end is the failure of `recv`. A failed `assert` and a write past
--   a buffer are results of their own.
-- Topology: lab4/topology/topology.c over the lines of topology.dat, the host name and the
--   addresses, which are fields of a record.
-- Network/Neighbors, Network/Distance, Network/Routes: lab4/network/nbrcosttable.c, dvtable.c and
--   routing_table.c. A table is a list of its entries. A read or a write past an array gives `none`;
--   topology_getNodeArray writes past its array on every host whose ID is not 0.
-- Network/Update, Network/Handler, Network/Daemon: the threads pkthandler, waitTransport and
--   routeupdate_daemon of lab4/network/network.c. A packet is handled in one step that returns the
--   tables and the calls made; Network/Daemon/System has the processes of all nodes, and the steps
--   in which one hears the broadcast of another, for any array of node IDs. Network/Process: main,
--   which makes the tables and the connection to the overlay process.
-- Server/Tcb, Server/Handler, Server/Sockets: lab4/server/mrt_server.c. A block's state and buffer,
--   what a segment does to it, and the table of sockets with the calls of the application. `fault`
--   stands for undefined behaviour.
-- Client/Buffer: the send buffer of lab4/client/mrt_client.c, and mrt_client_send. Client/Handler:
--   what a segment does to a connection's state and buffer. Client/Sockets: the table of sockets, and
--   the calls that connect, disconnect and close; a wait is the list of the segments that come in it.
-- Transport: a client's block, a server's block and the segments under way between them, as a step
--   relation, and the pipe of bytes that it is to be; the handshake before it (Transport/Opening). The
--   blocks of the pipe have buffers of any size; Transport/Starved has those that mrt_server_sock
--   makes, of four bytes.
-- Overlay: the neighbour table of lab4/overlay/neighbortable.c, the connections to the neighbours and
--   the packets that overlay.c passes on. What the system calls answer are parameters. Overlay/Process:
--   main, and the network processes that connect one after the other.
-- Stack: the parts of lab4 from one transport process to another: a hop between the network processes
--   of two neighbours, and a route of such hops.
-- Lab1: the servers and the client of lab1, for one message.
-- Lab2: lab2/server/mrt_server.c, lab2/client/mrt_client.c and lab2/common/seg.c, the first versions
--   of server, client and segments. Lab2/Client/Send: the call that sends data, from an empty buffer.
-- Lab3: lab3/topology/topology.c, the function connectNbrs of lab3/overlay/overlay.c, and
--   lab3/network/network.c. The arrays of 2,048 ints are lists of that length, and an access past
--   them is `fault`. What is the same as in lab4 is taken from its modules.
-- Base: names of the libraries, lists over native numbers, and tests. Tests: runs on concrete
--   inputs.
--
-- Loops are recursions over what they read, so they need no fuel, but for these: the inner loop of
-- waitTransport, the loop of listen_to_neighbor and that of lab2's mrt_client_send never end in the
-- source, and are given the number of their rounds, or the routing table that each round reads; the inner loop of waitNetwork, and pkthandler of
-- lab3, have more fuel than their streams have bytes; the polling loops of mrt_server_accept,
-- mrt_server_recv and sendingBuffer_timer are modelled by a round each. Integers are natural numbers:
-- an `unsigned int` or an `int` is its 32 bits, sums wrap where the code's do, and `is_negative` reads
-- the sign. `malloc` is taken to succeed, and what fresh memory holds is a parameter wherever the code
-- reads it, as are the results of `send`, `rand` and the resolver. The mutexes are held over each
-- update of a table, so a handler is one step.
--
-- Not modelled: the interleaving of the threads of one process, printing and freeing; the loops
-- of lab1's servers over their clients; the resending timer of lab2's client; the parts of lab3
-- that are the same as in lab4; the programs that only test or show the stack.
pub mod Base
pub mod Wire
pub mod Topology
pub mod Network
pub mod Server
pub mod Client
pub mod Transport
pub mod Overlay
pub mod Stack
pub mod Lab1
pub mod Lab2
pub mod Lab3
pub mod Tests
