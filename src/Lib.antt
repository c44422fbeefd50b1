-- ===== src/Lib.antt =====
-- rdesktop, a client of the Remote Desktop Protocol: the layers between the network and the
-- channels. A message that comes in passes tcp.c (bytes of the socket or of the TLS session), iso.c
-- (TPKT frames), mcs.c (channels), secure.c and then either the protocol core or channels.c, which
-- joins the chunks of a static virtual channel; drdynvc, one of these, carries the dynamic channels
-- of dvc.c. A message that goes out passes the same layers downwards: each reserves room for its
-- header when the packet is made (`..._init`) and fills it in when the packet is sent. All of them
-- build and read packets with the STREAM of stream.h. asn.c reads and writes the BER headers of the
-- connection, and mppc.c expands what the server compressed.
--
-- The files, and what they model:
--   Stream.antt   stream.h, stream.c: `struct stream` is a record, a pointer its offset from `data`;
--                 each macro or function `in_...`, `out_...`, `s_...` has the function of its name.
--                 Valid is the invariant, Read and Write the laws of the accessors.
--   Ber.antt      asn.c: ber_parse_header, ber_out_header, ber_out_integer, ber_out_sequence and
--                 ber_in_header.
--   Mppc.antt     mppc.c: mppc_expand, cut at its branches; the decoder runs on a record of its
--                 local variables and of the history.
--   Tcp.antt      tcp.c: tcp_init, tcp_recv and tcp_send. What the network answers is a list of
--                 events, so that all partial transfers and failures are covered.
--   Iso.antt      iso.c: iso_send_msg, iso_init, iso_send, iso_recv_msg and iso_recv;
--                 Iso/Negotiate.antt: iso_connect, on a list of attempts to connect.
--   Mcs.antt      mcs.c: data packets; Mcs/Connect.antt: the connection sequence up to
--                 mcs_connect_finalize. A packet that is complete is added to the list `outgoing`,
--                 and tcp_send takes it from there.
--   Secure.antt   secure.c: sec_init, sec_send_to_channel and sec_send; Secure/Cipher.antt: the hashes,
--                 the session keys, sec_encrypt and sec_decrypt.
--   Licence.antt  licence.c: the answers to the licence server; Licence/Receive.antt: the challenge,
--                 the new licence, the alert and licence_process.
--   Session.antt  secure.c: sec_recv, over mcs.c, with licence.c and channels.c behind it. Its loop is
--                 a relation between the session before a call and what it returns, since it runs as
--                 long as the network brings packets.
--   Fastpath.antt rdp5.c: the updates of the fast path, with mppc.c; the handlers of the updates are
--                 a record of functions.
--   Channels.antt channels.c, with the record of types.h.
--   Dvc.antt      dvc.c, and utils_djb2_hash of utils.c.
--   Display.antt  rdpedisp.c, with the limits and scale factors of utils.c. The layout that
--                 ui_get_monitor_layout reports is an argument.
--   Cache.antt    cache.c: the bitmap cache with its list of recent use, and pstcache_load_bitmap of
--                 pstcache.c. The abstract cache is a list of indices, the least recent one first,
--                 with the bitmaps as a function (Cache/Lru.antt); Cache/Desktop.antt has the desktop
--                 cache, Cache/Resources.antt those of glyphs, texts, cursors and brushes.
--   Common.antt   the names that all share; a call returns (`ok`) or ends by an exit: a protocol
--                 error, the exit of s_assert_w, an access that C leaves undefined, a loop that goes
--                 on for ever, or an inconsistency that the program finds itself.
--
-- Integers are natural numbers, with the wrap-around of their C types written out where a value can
-- leave them. Memory that is fresh holds zeroes, and an allocation succeeds. The loop of mppc_expand
-- has one unit of fuel for each bit of its data, as each round takes one at least. The loop of
-- channel_send has one for each byte, as a round that sends nothing changes nothing. The loop of
-- rdp5.c has one for each byte that remains, of which an update takes three. The loops of tcp.c run
-- on the events, that of iso_connect on the attempts. That of cache_save_state has one for each
-- entry of the table, and a list that goes on is a cycle. All others follow a list or a number.
--
-- Not modelled: logging; what calls the system, GnuTLS, the cryptographic library, X11, iconv and
-- the file system. SHA-1, MD5 and RC4 (`Crypto`), what the sender takes of the keys (`Security`) and
-- sec_process_mcs_data are parameters. The flags of channels.c are arguments (`Numbers`), of which
-- `numbers` are the values. A callback is known by its number; its caller runs it.
-- rdp.c, orders.c, bitmap.c and the redirections are not modelled.
pub mod Common
pub mod Stream
pub mod Ber
pub mod Mppc
pub mod Tcp
pub mod Iso
pub mod Mcs
pub mod Secure
pub mod Channels
pub mod Dvc
pub mod Cache
pub mod Licence
pub mod Session
pub mod Display
pub mod Fastpath
