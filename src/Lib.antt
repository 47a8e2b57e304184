-- ===== src/Lib.antt =====
-- A model of libnetconf2, the NETCONF library in C, and proofs about it.
--
-- The program moves NETCONF messages over a transport (a pair of file descriptors, an SSH channel
-- or a TLS connection). src/io.c reads bytes with a timeout, takes messages out of the two
-- framings of RFC 6242 and classifies them by their root element; in the other direction it prints
-- messages through a buffer that is flushed as chunks. src/messages_server.c makes the errors and
-- replies that src/io.c prints. src/session_server.c lets several threads poll the same sessions,
-- in the order of a queue, and answers the RPCs that come; it keeps the endpoints that the server
-- listens on, whose options src/session_server_ssh.c and src/session_server_tls.c set and use to
-- find the user name of a client. src/session.c exchanges the hello messages with which a session
-- begins. On the client's side src/messages_client.c makes the RPC structures, and
-- src/session_client.c takes the replies and notifications out of what src/io.c receives and out
-- of its queues, and reads the errors in them.
--
-- The files:
--   Common      lists, tests and options on native numbers; Bytes, strings as lists of character
--               codes; Decimal, strtoul() and the printing of numbers.
--   Session     `struct nc_session` of src/session_p.h with its enumerations; Session/Xml, the
--               fields of libyang's XML elements that the program reads; Session/Core: the fields
--               that no transfer changes (the files named Core of Io: that none does); Session/Lock:
--               nc_timedlock.
--   Io/Read     nc_read, nc_read_chunk, nc_read_until. Stream, Exact, Until: what is read of a
--               sound stream; Total, Ends: what any input can do.
--   Io/Frame    the framing part of nc_read_msg. Decode: reading back what is framed; Ends: any
--               input; Overrun: the chunk size that the buffer is too small for.
--   Io/Write    nc_session_is_connected, nc_write, nc_write_starttag_and_msg, nc_write_endtag,
--               nc_write_clb_flush, nc_write_clb (nc_write_clb_end is the call with NULL). Up: on a
--               transport in order, Buffered: through the buffer; Faults: on any.
--   Io/Message  nc_write_error and nc_write_msg, as the row of calls of nc_write_clb. Wire: the
--               bytes sent, and reading them back; Document, Error, Replied: the text.
--   Io/Receive  nc_read_msg, nc_read_poll, nc_read_msg_poll. Kinds: their results.
--   Messages    the server errors, their setters and the error replies of
--               src/messages_server.c; Create: nc_err; Table: nc_err against RFC 6241.
--   Server/Lock nc_ps_lock and nc_ps_unlock. Ring, Order: the ring buffer as a queue; Threads: the
--               threads as steps; Ordered, Exclusion, Progress, Faults: what they reach.
--   Server/Poll nc_ps_add_session, nc_ps_del_session, nc_ps_session_count and nc_ps_clear. Slots,
--               Apart: the arrays; Deleted, Cleared: what is left in them.
--   Server/Serve, Server/Polling
--               nc_recv_rpc and nc_send_reply; nc_ps_poll. Answered: the reply, and on the wire;
--               Others, Tame: the sessions that are not polled; Ended: the idle timeout.
--   Server/Endpoints, Server/Swap
--               nc_server_endpt_lock and the changes of the endpoints of src/session_server.c. Keyed,
--               Table, Deleted: the endpoints as a table; Swap: the loop that deletes.
--   Server/Options
--               the options of an endpoint and of call home, and their setters (Ssh, Tls). Valid,
--               Kept, Listed, Setters, Calls: what every setter keeps; Deleted: what is deleted.
--   Server/Certs
--               the cert-to-name list of src/session_server_tls.c. Sorted, Removed: its changes;
--               Names: from a certificate to an entry (First, Digests: which); Users: to a user
--               name (Granted, Sans: which).
--   Hello       the hello messages of src/session.c. Versions: the version chosen; Accepted,
--               Handshake: what is accepted; Advertised: nc_server_get_cpblts.
--   Client      Queues: get_msg; Kept, Runs: what its queues keep; Ends: that it returns. Errors:
--               parse_rpc_error; Info, Back: the errors that a server of this library sends.
--               Reply: parse_reply, nc_recv_reply, nc_recv_notif; Parsed, Delivered,
--               WithElem, Answered: their results. Rpc: the RPC structures; Make, Free: their
--               functions over Memory, a heap of blocks; Released, Calls: what is freed.
--   Examples    the theorems at concrete sessions.
--
-- How the code is read: a C result of -1 is `none` or `error`; a function that changes the session
-- returns the changed one. The transport enters as what its calls will answer: `incoming` lists the
-- results of the coming reads (a read takes from a packet what it asks for), `attempts` those of
-- the coming writes; at the end of a list the peer is silent, or the transport takes every write.
-- Bytes are numbers, and a size_t, the uint8_t and uint16_t counters and the numbers of messages
-- wrap as in C.
--
-- Fuel: a read loop's round uses up an arrival or a part of one, or sleeps 20 microseconds of the
-- timeout; so `budget`, the weight of the arrivals and 50000 for each second of the timeout, is
-- enough, and `stuck` is not reached. On a sound stream the weight alone is enough. A round of the
-- loop that deletes from an array leaves fewer elements, so their number is enough (Swap).
--
-- Not modelled: failing allocation; the narrowing of lengths to int (messages and chunks of 2^31
-- bytes); character codes of 0 inside a message, which end a C string; log output; the clock, but
-- for the sleeps counted. The XML parser and what libyang prints of data are parameters: a parser
-- function, and the pieces that reach nc_write_xmlclb. NC_READ_TIMEOUT, set by the build, is an
-- argument, and so are a program's callbacks, which may change any session, as they may with
-- nc_session_set_term_reason. The pollsession's mutex is left locked (`stranded`) by the two error
-- paths of nc_ps_lock. Of nc_session_free only the tests by which it returns without freeing are
-- modelled. nc_ps_poll is that of a build without NC_ENABLED_SSH. Of the client's side the
-- building of libyang trees in nc_send_rpc, the loading of schemas, the
-- notification thread and the sockets are not modelled. Of SSH and TLS the options, the authorized
-- keys and the cert-to-name list are modelled; the calls of libssh and OpenSSL that authenticate,
-- encrypt and verify chains are not, nor are nc_accept, call home, dates and logging. The names of
-- the functions on an endpoint are not NULL; a negative id in nc_server_tls_del_ctn is `none`.
pub mod Common
pub mod Session
pub mod Io
pub mod Messages
pub mod Server
pub mod Hello
pub mod Client
pub mod Examples
