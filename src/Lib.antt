-- ===== src/Lib.antt =====
-- ANTop: the daemon of an ad hoc network whose nodes are the corners of a hypercube.
--
-- A node's address is eight 16-bit words, of which the last four are its place in the hypercube;
-- its mask says how many of their bits are fixed, and so which addresses it may give away. A new
-- node broadcasts PAR, is offered an address in a PAP, accepts it with a PAN and is confirmed with
-- a PANC. Neighbours send heart beats; one that falls silent is deleted and, if it was a child, its
-- space is recovered. Names are registered at rendezvous nodes and looked up there. A node that
-- loses its way to the root starts a network of its own, and its descendants follow it (FAR, FAN);
-- two networks that meet become one, the addresses of one moving below a node of the other (MAR1,
-- MAR2, MAN1, MAN2). Packets and timers drive all this, and `antop_process_pkt` hands each packet to
-- its handler.
--
-- The files, and the code of the repository that they are about:
--   Base      numbers, lists, words of 16 bits in network order, code that may crash
--   Addr      addresses; `dist`, `dist_w_mask` and `check_addr_space` of pkt_handle.c
--   Node      antop_packet.h, defs.h, and the global variables as one record
--   Alloc     hcb_address.c: Protocol has the handlers of the exchange, with the PAN case of
--             antop_socket.c; Request has the loop of `get_prim_addr`; Network has whole networks
--   Names     the table of rendezvous.c: `rv_table_add`, `rv_table_delete`, `answer_rv_query`; the
--             servers of a name and `register_rv` are in Names/Servers
--   Dns       the client's side of rendezvous.c: `solve_name`, and `answer_dns_query` with its queue
--             and the bytes of its replies
--   Succesor  `check_succesor` of heart_beat.c
--   Neighbors the table of heart_beat.c and `check_neighbors`
--   Secondary the secondary links of secondary.c, but for `chk_sec_addr1`
--   Shift     `shift_unos`, `shift` and `del_and_addnew` of funciones.c
--   Fragment  fragmentacion.c
--   Mezcla    mezcla.c: Requests has `process_mar1`, Grants `process_mar2`, Answers `process_man1`
--             and `process_man2`
--   HeartBeat `send_hb` and `process_hb` of heart_beat.c as wholes, `chk_sec_addr1` of secondary.c
--   Dispatch  `antop_process_pkt` of antop_socket.c, and a node's steps, by packets and timers
--   Routing   `rv_route` of pkt_handle.c and the choice of the next hop; Entries has the list
--             `rt_info`, Table the routes of rt_table.c, Forward `send_to_next_neighbor`, and Hooks
--             `route`, which calls them all; Packets has `print_pkt` and `cb` for the packets that
--             arrive, and Outgoing on bytes for those of the node itself, up to the call of
--             `route`, with the option that it puts into them in Header
--   Checksum  the checksums of utils.c
--   Timers    timer_queue.c and timer_queue.h
--   Examples  concrete runs
--
-- Each function is named as in the code. Stateful code takes the state and returns the new one; what
-- it asks of the kernel is a list of effects. What a handler takes from outside, the contents of
-- fresh memory, the interface's address and the answer to a ping, is the record `Outside`. A null
-- pointer is an empty list or `none`; memory from `malloc` is an argument of unknown contents, and
-- `malloc` succeeds. Crashes are values (Base/Run).
--
-- The kernel's table of routes is a parameter, a function from the requests that the kernel got to
-- its answer; the requests, and the list that the answers are read into, are state (Routing/Table).
--
-- `check_succesor` has a loop that need not end, and runs on fuel, one unit for each of its rounds
-- over a word: 16 are enough whenever it ends. The other loops are structural. A timer's handler is
-- a parameter that does not touch other timers that have expired. Times are not negative.
--
-- Not modelled: the start of the daemon, the sockets, netlink and ioctl calls, printing, the kernel
-- module, the bytes of netlink messages, and the vendored libraries. `borrar_tabla_de_rutas` never
-- enters its loop, and so has no effect.
mod Base
pub mod Addr
pub mod Node
pub mod Alloc
pub mod Names
pub mod Dns
pub mod Neighbors
pub mod Succesor
pub mod Secondary
pub mod Checksum
pub mod Timers
pub mod Examples
pub mod Shift
pub mod Fragment
pub mod HeartBeat
pub mod Dispatch
pub mod Mezcla
pub mod Routing
