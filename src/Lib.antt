-- ===== src/Lib.antt =====
-- A verification library for a small user-space TCP/IP stack in C: Ethernet framing, ARP, IPv4, the active
-- open of TCP, and the registries that tie them together.
--
-- How the parts interact. A frame from the raw device goes to `ethernet_rx` (ethernet.c), which hands it
-- by `netdev_rx_handler` (net.c) to `arp_rx` (arp.c) or `ip_rx` (ip.c). `ip_rx` finds its interface by
-- `netdev_get_netif` and calls the protocol's handler; the handler of TCP is `tcp_rx` (tcp.c), which finds
-- the connection's control block and answers by `tcp_tx`. Going down, `tcp_tx` calls `ip_tx`, which asks
-- `arp_resolve` for the hardware address and sends by the device's `tx`, which is `ethernet_tx`. util.c has
-- the conversions of byte order, the checksum and the bit mask of reassembly. Fragments that `ip_rx` gets
-- are collected by `ip_fragment_process`. An Ethernet device has a raw device below it (raw.c), a packet
-- socket or a tap interface, which a thread reads.
--
-- Files. Base: shared helpers; Base/Registry is the search of a linked list by a number, Base/Bits/Digit
-- the binary digits of a number. Util/ByteOrder, Util/Checksum and Util/Mask: util.c; Util/Text is what
-- the address functions use of `strtol` and `snprintf`. Net: net.c and net.h. Raw: raw.c, with Raw/Soc
-- for raw/soc.c and Raw/Tap for raw/tap_linux.c over the system of Raw/System, and their tables in
-- Raw/Ops. Ethernet: ethernet.c and ethernet.h, with Ethernet/Address for the text of addresses and
-- Ethernet/Device for the life of a device and its thread. Arp/Table, Arp/Message, Arp/Rx, Arp/Resolve:
-- arp.c and arp.h, with Arp/Exchange for both ends of a link and Arp/Reach for the table as a state
-- machine. Ip/Header, Ip/Netif, Ip/Register, Ip/Address, Ip/Protocol, Ip/Rx (the tests of `ip_rx`),
-- Ip/Receive (`ip_rx` as a whole), Ip/Tx: ip.c and ip.h. Ip/Fragment is reassembly: the list, with
-- Process for `ip_fragment_process`, Collect and Finish for one call, Complete for all fragments of a
-- datagram, Calls and Mixed for fragments of several datagrams in any order, with Seen, Written, Others
-- and Since, Count and Starve for the count of objects; the packets of `ip_tx` through `ip_rx` are in
-- Ip/Receive/Datagrams, and in Ip/Receive/Sent with the loop of `ip_tx`. Tcp/Cb (control blocks),
-- Tcp/Segment (`tcp_tx`), Tcp/Event, Tcp/Rx and Tcp/Api: tcp.c and tcp.h, with Tcp/Block and Tcp/Reach
-- for the table as a state machine, Tcp/Open for a whole active open, and Tcp/Init for the way of a
-- segment through IP. Tests: runs at concrete inputs.
--
-- How the C code is read. Functions, fields and constants keep their names in lower case. Bytes are
-- numbers below 256 in lists; how the machine lays a word out in memory is the parameter `Endian`, and
-- an address or a field in network order is the number that this machine reads from its bytes. A pointer
-- into a table is an index, a null pointer is `none`, and a read through one is a result of its own.
-- Static variables are arguments and results. Time, and whether `malloc` succeeds, are arguments. A lock
-- makes each critical section one function; what another thread may do in between is a sequence of
-- calls. Whether a wait on a condition returns is an argument, also where nothing signals the condition.
-- What C leaves undefined is a result of its own: a write past a buffer or an object (`fault`), a read
-- past a datagram (`over_read`), `sprintf` to `stderr` (`undefined_write`), a shift by 32 or a word past
-- a mask (`undefined`), a null pointer (`null_write`, `none`), freed memory (`use_after_free`). A system
-- call's result is an argument, and the descriptors and objects that it leaves are in the state.
--
-- Fuel. The loop of `ip_tx` has one unit for each byte of the payload and one more; each round sends at
-- least one byte, which is shown. The search of a port in `tcp_api_connect` has one unit for each port that
-- is left up to 65535, as the loop of the source. All other loops recur on their list.
--
-- Not modelled: the dumps for debugging, and the texts of TCP's flags and states, which only they print.
-- What holds the bytes behind an object of reassembly is no model's: how many of them may be overwritten
-- is an argument, and `ip_fragment_alloc`, whose `maskclr` clears 24576 bytes behind the mask, is a
-- fault if they are fewer. Of raw/ the wrappers that only pass on `priv` for `rx` and `tx`, and which
-- interface a name means. Of net.c and ip.c `netdev_root`, which returns a list, and `ip_init`, which is
-- one call of `netdev_proto_register`. Of tcp.c the functions that are only declared and
-- `tcp_api_close`, which is empty; a call of `ip_tx` from TCP is a value, and what it returns an
-- argument. The calls on an Ethernet device are those of the main thread.
mod Base
pub mod Util
pub mod Net
pub mod Raw
pub mod Ethernet
pub mod Arp
pub mod Ip
pub mod Tcp
mod Tests
