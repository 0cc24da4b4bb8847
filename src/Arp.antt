-- ===== src/Arp.antt =====
-- arp.h and arp.c: the table of addresses, the messages, and the two entry points `arp_rx` and
-- `arp_resolve`. The table's lock makes each critical section one step; a step is one function here.
pub mod Table
pub mod Message
pub mod Rx
pub mod Resolve
pub mod Exchange
pub mod Reach
