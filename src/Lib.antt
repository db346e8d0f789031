-- ===== src/Lib.antt =====
-- A model of libapenetwork, the C event loop library under pkg/libapenetwork/src, in the build that
-- pkg/libapenetwork/build.zig makes: Linux with epoll, APE_DISABLE_SSL defined, APE_USE_ZLIB not.
--
-- The library has one event loop. Each descriptor that it watches is a socket; a socket collects
-- what it reads in a byte buffer, keeps what it could not write in jobs, which are the slots of a
-- pool, and ends by a timer that the loop runs after the events of a round. The model has these parts:
--
--   Buffer (ape_buffer.c, ape_buffer.h). A buffer is its block, `size`, `used` and `pos`, as in the
--     source, and the block is a list of bytes: a store or a read outside of it is `none`. Buffer/State
--     has creation and growth, Buffer/Append the appending functions, Buffer/Camelify
--     buffer_camelify and Buffer/Utf8 the two conversions. The bytes of a fresh block are a
--     parameter, a function from places to bytes, since malloc leaves them open; the theorems hold for
--     each. A char is signed as on Linux for x86. Sizes are unsigned machine integers: where a
--     theorem needs an addition not to wrap, it says so.
--   Pool (ape_pool.c, ape_pool.h). Slots stand on an explicit heap, from pointers to slots; a null
--     or wild access is `none`. Pool/State has the functions that build and relink a list, Pool/Seg the
--     predicate that a list holds a sequence of slots. Pool/Destroy has the destructors: giving a block back
--     takes its slots off the heap, so that a later access to them is `none`. Where malloc puts
--     new slots, how large a block is, and the cleaner are parameters. The loops of the destructors run on
--     fuel, for which one more than there are slots is enough.
--   Events (ape_events.c, ape_events.h, ape_event_epoll.c). Events/State counts the descriptors and keeps the
--     size of the block for their events, with the room that is allocated; Events/Epoll has the flags of
--     the backend. The answers of epoll_ctl and what epoll_wait stores are parameters. A count of
--     descriptors below 0, and a size that overflows, are `none`.
--   Hash (ape_hash.c, ape_hash.h). Hash/Murmur is MurmurHash2 on machine words, little-endian; Hash/State has
--     the tables, with numbers and with strings for keys. A bucket is the list of its items in the order
--     of `next`, and the links `lnext` and `lprev` are the list of the places of all items. strcasecmp and the
--     places that malloc gives are parameters. The loops over a chain are recursion on it, but those of
--     hashtbl_free, in Hash/Free: there the items stand on a heap that `free` takes them off, and the loop over a
--     bucket runs on fuel, for which one more than the bucket has items is enough.
--   Socket (ape_socket.c, ape_socket.h). Socket/Types has the states and records, Socket/Jobs the choice
--     of a job slot, Socket/Close every function that ends a socket and Socket/Write
--     APE_socket_write with the queue of packets; the answers of the system to `write` are a
--     parameter, a list, and the loop is recursion over it. Socket/DoJobs has ape_socket_do_jobs, with the
--     answers to `writev` and `sendfile` as a list; its loops over packets and over jobs run on fuel, for
--     the packets one more than there are is enough. A socket stands in a world with
--     the timers it has created and a log of what it does to the system; reading the state of a
--     freed socket is `none`. Socket/Open has APE_socket_new, APE_socket_listen, APE_socket_connect and
--     ape_socket_accept with the answers of the system as parameters, Socket/Read ape_socket_read and
--     the datagrams, Socket/Files APE_sendfile, and Socket/Free ape_socket_free with the cleaners of its
--     lists. The callbacks on_read, on_message and on_connect are parameters, functions on worlds;
--     on_disconnect and on_connected leave a mark in the log, and the other callbacks of the program are
--     taken not to call back into the socket.
--   Loop (ape_events_loop.c). Loop/Client has what APE_loop_run does with an event of a client's socket, by the
--     functions of Socket/Read, Socket/DoJobs and Socket/Close; the answers of the system and the callbacks are
--     parameters. Loop/Ended is about events that end a stream or an attempt to connect.
--   Dns (ape_dns.c, ape_dns.h). Dns/State has the table of the sockets of c-ares with ares_socket_cb, Dns/Request a
--     question from ape_gethostbyname on: the record that it shares with the socket and c-ares, and
--     who may still reach it; an access after it is freed is `none`. Dns/Life has the steps that may
--     happen to a question, in any order. What c-ares does is a parameter.
--   Timers (ape_timers_next.c, ape_timers_next.h). Timers/State has the timers, in the order of `next`, and
--     the asynchronous calls with the functions on them; Timers/Run has the loops over all timers,
--     ape_timers_process among them. The clock and the functions of the program that are called are
--     parameters: they take the timers and may change them, so that the loops run on fuel. Where a theorem
--     needs them to, they only create timers (`Calm` of Timers/Ends); a round for each timer is then enough.
--   Base: numbers, tests, lists and the monad of faults, shared by all.
--
-- The loops are structural recursion: over the bytes of a block, or over the number of slots to make.
-- The decoder of buffer_utf8_to_buffer jumps by the width of a character; it runs on fuel, `pos` and
-- one more, which is enough because each round advances by one byte at least (Buffer/Decode).
--
-- Not modelled: the zlib branches of the buffer, which the build leaves out; the TLS glue, which is
-- disabled; the kqueue and select backends, which are for other systems; the log; the start of the
-- library and its process limits; the turns of APE_loop_run, the
-- events of sockets that listen, each one call of a function that is modelled, and the delegates; the copies of llhttp and c-ares; the Zig server above the library. Of the
-- socket, its options, APE_socket_writev, the datagrams that are sent and the delayed shutdown are left out.
pub mod Base
pub mod Buffer
pub mod Pool
pub mod Events
pub mod Hash
pub mod Socket
pub mod Timers
pub mod Dns
pub mod Loop
