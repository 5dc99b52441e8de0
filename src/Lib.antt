-- ===== src/Lib.antt =====
-- OSNS (Open Secure Network Services): a verification of the parts of its C code that the SSH transport,
-- the SFTP attributes and the bookkeeping of all programs rest on.
--
-- The programs (osns, the client, the FUSE, SFTP and SSH servers, system and ctl) are event loops that
-- exchange messages. What they exchange is written and read by the code under src/lib: big-endian
-- integers and length-prefixed strings (lib/ssh), message buffers (lib/datatypes/ssh-msg-buffer.c), buffers
-- for file attributes (lib/datatypes/buffer.c) and lists of names with commas
-- (lib/datatypes/ssh-namelist.c). The SSH code (src/ssh) negotiates its algorithms with these, and every
-- table of connections, channels, requests and directories is a list with a header
-- (lib/list/simple-list.c), or a hash table of such lists (lib/list/simple-hash.c). Directories order their
-- entries by names with a number (lib/datatypes/name.c). Threads share tables under the locks of lib/lock/locking.c.
--
-- Modules:
--   Prelude      the names that are shared; lists by native numbers, bits, signed integers
--   Memory       memcpy, memcmp and reads in byte buffers
--   CString      strchr, memchr, strstr and strcmp; Names: lists of names with commas; Compare: the
--                order of texts
--   Wire         src/lib/datatypes/ssh-uint.c: store_uint32, get_uint32, ...
--   SshString    src/lib/ssh/ssh-string.c: read_ssh_string, write_ssh_string, compare_ssh_string,
--                buffer_count_strings
--   MsgBuffer    src/lib/datatypes/ssh-msg-buffer.c: the writers with and without a buffer, the readers
--   AttrBuffer   src/lib/datatypes/buffer.c: the same for attributes; Complement: signed seconds
--   Commalist    src/lib/datatypes/ssh-namelist.c: add_name_to_commalist, string_found_commalist,
--                name_found_namelist, parse_ssh_commalist
--   KeyExchange  src/ssh/keyexchange/compare.c: get_best_guess; Compare: get_index_algo and
--                compare_msg_kexinit; Offers: the name-lists, and what has to be found in them
--   SimpleList   src/lib/list/simple-list.c: the tables of functions and what they call; Steps: the steps
--                to a neighbour; Users: the functions for users; the other children are about proofs
--   ListLock     src/lib/list/lock.c: the lock of readers and writers of a list; Threads: the steps of the
--                threads that share it
--   Name         src/lib/datatypes/name.c: the number of a name, and the comparison that uses it; Order,
--                Index, Compare: what the number says of the order of names
--   NameString   src/lib/datatypes/name-string.c: strings with one byte for their length
--   SimpleHash   src/lib/list/simple-hash.c: hash tables whose buckets are lists of SimpleList; Table: what a
--                well-formed table is; Change: one bucket changes and the others stay; Create, Add,
--                Remove and Free: the operations
--   Locking      src/lib/lock/locking.c: locks of readers and writers, whose lists are those of SimpleList;
--                Calls: the upgrade, the downgrade and the functions for users; Lists, Enter, Leave, Write
--                and Upgrade: what the calls do to the two lists
--   SftpAttr     src/lib/sftp/attr/write-attr-v03.c, read-attr-v03.c and init-attr-v03.c, with
--                src/lib/sftp/rw-attr-generic.c and the fields of src/lib/system/stat.c: the attributes of files on
--                the buffers of AttrBuffer; Wired: the order on the wire; Cached: the
--                loop over rows that were kept; Write, Read, Measure,
--                RoundTrip: what is written, how much it is, and what comes back
--   Asn1         src/ssh/pk/asn1.c: tags and lengths in DER; Lengths: the forms of a length; Reads: what is read,
--                and where
--   PrivateKey   src/ssh/pk/pk-read-private.c: the readers of RSA and DSS keys in DER, with what they call of
--                src/lib/datatypes/ssh-mpint.c; Places: one value; RoundTrip, Rsa: whole keys; Bytes: the
--                number of bytes of a number
--   Payload      src/lib/ssh/payload.c: the queues in which threads wait for a message, on the lists of
--                SimpleList; Select: the choice of a payload; Queue: a queue as a list; Live: that a wait ends;
--                Clear: a queue that is cleared
--   Channels     src/ssh/channel/table.c: the table of channels by their numbers, on the hash tables of SimpleHash;
--                Members, Total: which channels are in a row, and how many; Invariant: the table in order; Init,
--                Add, Remove, Start: how channels come into the table and out of it; Lookup, Walk, Clear: the
--                loops over it
--   Requests     src/sftp/request-hash.c: requests that wait for an answer; Loop: the wait, and the receiving
--                thread (src/sftp/recv/recv-v03.c); Table: the table, as that of Channels; Events, Wait: what is
--                left of a request that waits; Answered, Live: whole waits
-- A function of the source has the name it has there (_osns_readlock has no underscore in front). The modules Tests apply the theorems to concrete
-- values.
--
-- How C is modelled:
--   - A byte is a number, a buffer a list of numbers, and a pointer the list from there to the end of its
--     buffer, or none for NULL. An access behind the end of a buffer or through NULL is `none` (or
--     `fault`), so that a theorem that gives a result says that there is no such access.
--   - `unsigned int` arithmetic is written with `% 2 ^ 32`, 64 bits with `% 2 ^ 64`. `left` in an attribute
--     buffer is an int that is compared as unsigned, and is kept as its pattern of 32 bits.
--   - A function returns the new state beside its result. Error codes are those of Linux.
--   - Loops that go by pointers take fuel: buffer_count_strings the size and 1 (each string takes four
--     bytes), find_name the length of the copied list (each round passes a comma), parse_ssh_commalist the
--     length of the list and 1, and the loops over a list, in a hash table too, its count and 1. The theorems on these
--     functions have `done` in their result, so the fuel is enough.
--   - The elements of lists are in a store: each field of the struct is a map from addresses, and the
--     tables of functions are names that are looked up by clauses. An operation on a pointer changes the
--     store for all who hold it.
--   - malloc returns what an argument says: NULL, or the number of an element or of the first header of an
--     array. free has no effect on the store, and the data that a table hands to free_data is its result.
--   - strcmp gives the sign of its result. A product that overflows a signed int is `none`.
--   - A callback is a function on a state (read_string), or the list of its calls (parse_ssh_commalist); the
--     calls of store_algo_pubkey_negotiation are in the result of compare_msg_kexinit.
--   - Threads are a list of places in the code, and a step is what one of them does between two waits for
--     the condition of the lock, since the mutex is held all that time.
--   - strchr that gives NULL, where the source goes on with the pointer, is a fault.
--   - A mask of attributes is a record of its bits, and the mappings of users and groups are a parameter, of
--     which a theorem says that the reader's undoes the writer's.
--   - What happens while a thread waits for a payload is a list of rounds: what the callback for breaking off
--     says, and then the end of the time, or a signal with the payloads that others queued before it.
--   - Numbers of many digits are those of libgcrypt, a parameter whose gcry_mpi_scan is given the bytes that it
--     reads. HAVE_LIBGCRYPT is taken as set.
--   - `left` and `size` of the readers of DER are ints, kept as their patterns of 32 bits. `pos` may move
--     behind the end of its buffer, where it is the empty list and nothing can be read.
--
-- Not modelled: the flags of src/lib/lock, allocation, logging and the programs' handlers with their
-- sockets, threads and files, versions 4 to 6 of the SFTP attributes and the table in which
-- rw-attr-generic.c keeps the rows of earlier masks, and the cryptography, which is libgcrypt's. get_int64 and read_int64 shift
-- a signed number by too much, and have no model.
pub mod Prelude
pub mod Memory
pub mod Wire
pub mod SshString
pub mod MsgBuffer
pub mod AttrBuffer
pub mod CString
pub mod Commalist
pub mod KeyExchange
pub mod SimpleList
pub mod ListLock
pub mod Name
pub mod NameString
pub mod SimpleHash
pub mod Locking
pub mod SftpAttr
pub mod Asn1
pub mod PrivateKey
pub mod Payload
pub mod Channels
pub mod Requests
