-- ===== src/Lib.antt =====
-- The receive path of a WireGuard kernel module whose wake logic is patched (build/wg515-trigger),
-- over the code of the Linux driver it belongs to (linux-source/drivers/net/wireguard) and the
-- NAPI core (linux-source/net/core/dev.c).
--
-- A data packet goes through these parts. The receive softirq checks it and puts it in its peer's
-- queue (Receive.Header, Receive.Ingress, PrevQueue) and in the device's ring; some thread decrypts
-- it with the keypair that its index names (Transport, Tables), stores its state
-- and decides whether to wake the peer's poll (Wake.Job); NAPI keeps that wake (Napi); the
-- poll takes finished packets from the queue's head (Wake.Poll), checks each nonce against the replay
-- window (Replay), and hands the packet on (Receive), if the inner source address belongs to its
-- peer (AllowedIps). Keypairs, Ratelimiter and Timers are the state that the path reads and keeps.
--
--   Prelude     Boolean tests, lists and updated functions that the parts share
--   Replay      counter_validate of receive.c. Spec is the log of accepted counters
--   PrevQueue   wg_prev_queue_init, enqueue and dequeue of queueing.c. A pointer is a number, and the
--               memory is the function `next`; one call at a time. Fifo is the abstract queue
--   Napi        napi_schedule_prep, ____napi_schedule and napi_complete_done on the bits of one
--               instance; the inline napi_schedule is as docs/cloudlab/MISSED_REPOLL_PROOF.md quotes it
--   Wake        the threads of one peer, cut at their shared accesses: Job is
--               wg_queue_enqueue_per_peer_rx, Poll is the end of wg_packet_rx_poll, and System
--               interleaves any number of jobs, the poll and wg_rx_coalesce_timer in any order. Packets
--               are numbered, and `address` is where each lies. Memory is sequentially
--               consistent, which the barriers of the code are there to give. A producer that stands
--               between the exchange of the queue's head and its link makes the queue answer NULL. Inv is
--               the invariant and Safety what follows from it; Stale and LostTimer are about states in
--               which a wake is missing
--   Keypairs    the slots of a peer's keypairs and their references (noise.c). Session is
--               wg_noise_handshake_begin_session in its two halves; Step the steps of all threads, each
--               under one lock; Race the gap between the halves
--   Noise       the handshake of noise.c. Mix is the key schedule, Message the four steps; Curve25519,
--               BLAKE2s and ChaCha20Poly1305 are parameters, and a byte string is a list of numbers.
--               What other threads do between two locks is an argument. Transcript is what each step
--               comes to where it succeeds, Agree a whole handshake, Once a repeated initiation
--   Cookie      cookie.c: the codes of handshake messages and the cookies, with BLAKE2s and
--               XChaCha20Poly1305 as parameters. Laws is an exchange of a cookie
--   Receive     the datagram checks of prepare_skb_header (Header), and the delivery loop of
--               wg_packet_rx_poll with wg_packet_consume_data_done (receive.c). What the kernel reads
--               from the inner packet is part of the packet; calls of other parts are effects in
--               order. Ingress is wg_packet_receive with wg_packet_consume_data
--   Send        send.c: the staged packets, their nonces and padding, and the handshake messages that
--               are asked for; calls of other parts are effects in order. Nonces, Apart and Calls are
--               about the nonces, Rate about the initiations
--   Ratelimiter wg_ratelimiter_allow and its collection (ratelimiter.c); the keyed hash is a parameter
--   Timers      timers.c: the five timers of a peer, their handlers and the calls that set them. Calls
--               of other parts are actions in order
--   Transport   encrypt_packet (send.c) and decrypt_packet (receive.c) on the bytes of the socket buffer;
--               the cipher and the socket buffer calls are parameters
--   Tables      peerlookup.c: the hashtable of indices and the one of public keys. Random indices are a
--               list of draws, the keyed hash is a parameter. Buckets is about one bucket, Refine has
--               the abstract table, Lookup is about the calls, Slots about the search for an
--               index, Keys about the public keys
--   AllowedIps  allowedips.c: insert, remove and lookup. A trie is a data type; node_placement and the
--               rest of add or remove are one recursion along its walk. An address is a function from
--               its bit's place to the bit; Layout has its bytes. Shape is the shape of a trie and the
--               peer that it has for a prefix, Refine the abstract table
--
-- Machine words: counters are natural numbers, and an addition or a subtraction that can wrap is taken
-- modulo 2 ^ 64. No definition runs on fuel: the loops are structural recursion on their bound.
--
-- Not modelled: the encrypt and decrypt workers; the socket and netlink glue; the wg_diag
-- counters; and the kernel files that are here only to be read.
pub mod Prelude
pub mod Replay
pub mod Napi
pub mod Wake
pub mod PrevQueue
pub mod Keypairs
pub mod Ratelimiter
pub mod Receive
pub mod Timers
pub mod AllowedIps
pub mod Noise
pub mod Cookie
pub mod Send
pub mod Tables
pub mod Transport
