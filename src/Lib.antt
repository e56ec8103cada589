-- ===== src/Lib.antt =====
-- A model of sntools, a set of small network tools in C, with the theorems that make it correct.
--
-- The programs and what they share. src/lib/linked_items.c has doubly linked lists, in which every
-- program keeps its data. src/lib/smtp_socket_util.c reads SMTP replies and writes text in
-- quoted-printable, for src/exec-and-mail.c, which collects the output of a command and mails it.
-- src/lib/html_convert.c turns lines into HTML, for src/html.c and for the reports of
-- src/hostwatch.c, which counts the traffic of pairs of hosts that tcpdump shows, and of
-- src/snort-scan-util.c, which counts the alerts of snort. src/lib/mdb.c wraps the key-value store
-- LMDB, from which src/arp-history.c lists the hosts that src/arp-scan-util.c has found.
-- src/lib/net_util.c and src/lib/net_srv_util.c open sockets and accept connections, and
-- src/lib/httpd_util.c begins an HTTP response, for the servers in src/httpd-exec.c, hostwatch and
-- snort-scan-util.
--
-- The files:
-- - Base: Boolean tests, lists measured by native numbers, signed integers, and C strings as lists
--   of bytes with the functions of the C library that the sources call (strcmp, strstr, strrchr,
--   atoi).
-- - Memory: a heap of list items, with the commands that read and write it. A read or write at NULL
--   or at a freed item is a fault.
-- - LinkedItems: linked_item_create, append, remove, count, last, free and sort on that heap. Chain
--   says what a well-linked list is, Bubble is the sort on plain lists, Sorted the contract of the
--   sort.
-- - Smtp: smtp_read, smtp_write and smtp_qp_write. A socket is the bytes that arrive on it and the
--   bytes written to it. Decode reads quoted-printable back, Framed is about the end of the
--   data, Dots about the dots that a receiver removes, Loss about what is not carried over.
-- - HtmlConvert: html_append_text and html_finish, and main of html.c. Blocks describes the
--   document that should come out.
-- - ExecAndMail: the buffer of lines, the reader and the timer thread as steps (one for each
--   section between lock and unlock), main without the timer, in Session the SMTP dialogue of
--   send_buffer, in Mails the mails with their connections, in Received what the servers
--   get, in Total how each mail ends.
-- - Pairs: items that belong to a pair of hosts in a table, shared by Hostwatch and Snort.
-- - Snort: the table of attackers and targets of src/snort-scan-util.c, in Alert the reading of a
--   line of snort, in Line that it reads back a printed one, in Output the report, in Watch the loop of
--   main with its reports and the requests of the server thread, in Ranked the order of the
--   table, in Heard, Known, Short and Traffic
--   what the table and the report say of the alerts read, in Page what a client gets.
-- - Mdb: src/lib/mdb.c over LMDB as an interface. Laws is about its round trip and its error paths.
-- - ArpHistory: the listings of src/arp-history.c over that store.
-- - ArpScan: what main of src/arp-scan-util.c does with a line of arp-scan: its tokens, the checks
--   against the store, the five records of a host, the two counters and what is printed. Hosts and
--   Rescan are about a network that is scanned again.
-- - Net: resolve, resolve_ip, open_socket and writes of src/lib/net_util.c, create_server_socket and
--   accept_loop of src/lib/net_srv_util.c. A function's calls on sockets are a list.
-- - Httpd: init_response of src/lib/httpd_util.c, and respond and configure of src/httpd-exec.c. Request is about where a
--   request ends, Sends and Delivered are about writes that fail, Visits about the server as a whole.
-- - Hostwatch: the table of host pairs and what a packet does to it, in Packet the reading of a
--   line of tcpdump, in Output the options and the report, in Watch the loop of main with its
--   reports and the requests of the server thread, as a sequence of events, in Line the lines that
--   are read back, in Seen, Only, Traffic and Reported what a report says of the lines read,
--   in Short and Fits that its lines fit their buffers.
-- - Startup: what main of each program does before it reads the first line: the checks of its
--   arguments, its server, the database, and the command that it starts.
--
-- Conventions. An unsigned long is a number modulo 2 ^ 64 and an unsigned int one modulo 2 ^ 32, an
-- int or time_t is an integer, which is taken to be in range. A char array is the list of its bytes
-- before the NUL. Where the source writes past a fixed buffer the model has no result, but for the
-- 512 bytes of a line of hostwatch's report: create_out of Hostwatch.Output returns its lines whatever
-- their length, and Hostwatch.Fits is about that size. What is printed
-- is modelled in ArpScan, ArpHistory, Snort.Watch and the reports of Hostwatch, and left out elsewhere.
-- Outside LinkedItems a linked list is a list and a pointer to an item is its index, and an allocation
-- succeeds.
--
-- Fuel. The loops of LinkedItems follow pointers and so run on fuel: more than the number of items
-- for the loops along the list, more than its square for the passes of the sort and more than twice
-- the number of items for each pass. Running out of it is a result of its own, which is not a
-- return. unit_loop of Hostwatch.Output has fuel for more rounds than a 64-bit number needs.
-- decimal prints up to 20 digits, enough for 64 bits.
--
-- Parameters. The clock's text, the conversion of an unsigned long to double and the printing of a
-- double are the C library's, and parameters of Hostwatch.Output, Snort.Output and ArpHistory. LMDB
-- is a record of operations, with the laws of a put that succeeds in a second record. A put may fail;
-- that none of a run does is a hypothesis of the theorems about ArpScan, stated of the very calls of
-- that run. The resolver (getaddrinfo, inet_pton, getnameinfo) and the kernel (socket, connect, bind,
-- listen) are records of what their calls return; reads, sends and accepts are lists of results.
-- malloc gives an address that is a parameter of create.
--
-- Not modelled: lib/liblmdb, which is another project's library; what a started command does; a read
-- that blocks for ever and, in exec-and-mail, a write that fails (SIGPIPE ends the program); signals,
-- messages on stderr and those of the options; threads other than as an order of their locked
-- sections; the tests and the shell scripts.
pub mod Base
pub mod Memory
pub mod Pairs
pub mod LinkedItems
pub mod ExecAndMail
pub mod Hostwatch
pub mod HtmlConvert
pub mod Smtp
pub mod Snort
pub mod Mdb
pub mod ArpHistory
pub mod Net
pub mod Httpd
pub mod ArpScan
pub mod Startup
