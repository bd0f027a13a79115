-- ===== src/Lib.antt =====
-- CoreZ-OS, a 32-bit x86 kernel with threads on several processors.
--
-- The parts that are modelled, and where:
--
-- * Sync is kernel/sched/sync.c. Sync.Spin steps processors through spinlock_acquire and
--   spinlock_release one memory access at a time. Sync.Sema and Sync.Lock take what a thread does
--   between the two, with interrupts off, as one step: a pass of the loop of sema_down
--   (sema_down_pass), sema_up, the start of lock_acquire (lock_enter), a pass of its loop (lock_pass)
--   and lock_release. Putting a thread to sleep (thread_block_prepare, then thread_block_commit) is
--   part of the pass that queues it, and thread_unblock makes it ready again: the scheduler's
--   handling of a wake-up between the two calls is taken as given. Sync.RwLock steps threads through
--   rwlock_read_acquire, rwlock_read_release, rwlock_write_acquire and rwlock_write_release, one
--   operation on a semaphore or on readers at a time (advance): a pass of sema_down that does not go
--   through puts its thread to sleep, and sema_up wakes the thread that waits longest. The nesting of a lock stays below
--   2 ^ 32, the bound of its counter.
-- * IoQueue is drivers/char/ioqueue.c, the byte queue of terminals and pipes. The queue's own lock is
--   one of Sync.Lock, so a pass of ioq_putchar or ioq_getchar is one step; the field ends, which pipes
--   use, is left out. IoQueue.Fifo is the list that the queue stands for.
-- * Bitmap is kernel/mm/bitmap/bitmap.c, the bitmaps of free pages and addresses. -1 is none. The loop
--   over a word has 64 rounds, since each round passes a bit at least; __builtin_ctzll is ctz.
-- * Rtc is drivers/char/rtc.c, the CMOS clock. The ports are a parameter (Ports), a state with outb and
--   inb. The wait for the end of an update makes 64 reads at most, as the code does. int is ℤ, the
--   unsigned types wrap at their width.
-- * Net is drivers/net below the sockets. Net itself has the bytes of a packet, an interface and
--   eth_output;
--   Net.Eth is eth_input of drivers/net/eth.c, Net.Arp drivers/net/arp.c, Net.Checksum and Net.Ip
--   drivers/net/ip.c, Net.Icmp drivers/net/icmp.c, Net.Udp drivers/net/udp.c and Net.Dns the queries and
--   answers of drivers/net/dns.c. A packet is its bytes. A frame handed to the interface's tx, and
--   the calls of ip_arp_resolved and ip_input, are events in a list; the calls that ip_input makes are
--   values (Delivery), and ip_input_udp joins it to udp_input. What a function does under net_lock and
--   after it is one step. A control block of UDP is named by its place. udp_recv tells a read outside
--   the ring apart (outside). The loop of dns_skip_name has fuel for every byte of the message, and one,
--   and the loop over a name's labels for every byte of the name.
-- * Net.Tcp is drivers/net/tcp.c. A function works on the control block that it is handed, and the
--   segments that it hands to tcp_emit are a list, each with its fields (Segment); segment_bytes is
--   the packet that tcp_emit makes of one, and tcp_emit says whether ip_output takes it, which no
--   caller asks but tcp_connect, whose result is left out. net_now_ms and the address on the stack that
--   a port is made of are arguments. tcp_input looks the block up (pcb_find), and tcp_segment is what
--   it does to it; tcp_tick goes over the table. Net.Tcp.Duplex joins two ends by a network that loses,
--   repeats and reorders while the connection is open: no step there closes it or shuts it down. The loops over the send buffer of 8192 bytes have fuel for a round for every
--   byte, and one (Net.Tcp.Ends); the loop over a listener's queue for its 8 places.
-- * Futex is kernel/syscall/futex.c. A wait is one step up to where its task sleeps and one when it runs
--   again; the caller's memory, the clocks and the status of tasks are arguments.
-- * Shm is kernel/gui/shm.c. Buffers and pools are named by their places, and what a place holds is not
--   modelled, only its pages' addresses; what get_kernel_pages gives is an argument, and the pages that
--   go to free_kernel_page are a result. A count of references stays below 2 ^ 31.
-- * Crypto is lib/crypto/sha256.c: SHA-256, HMAC and HKDF. The loop that pads with zeros has fuel for a
--   block.
-- * Base has the lists, families of numbers, integers and bits that these share.
--
-- A task is a number. Words of w bits are natural numbers below 2 ^ w. Not modelled: hardware drivers,
-- the page pools and the heap, the scheduler, the sockets, TLS and dns_resolve, which calls the
-- sockets, the file systems, the other system calls, the rest of the display server, ciphers and public
-- keys, and the libraries for images and fonts.
pub mod Base
pub mod Rtc
pub mod Sync
pub mod Futex
pub mod IoQueue
pub mod Bitmap
pub mod Net
pub mod Shm
pub mod Crypto
