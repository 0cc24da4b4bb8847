-- ===== src/Ip.antt =====
-- ip.h and ip.c: the header, reception with reassembly, transmission, protocols, interfaces and addresses.
pub mod Header
pub mod Fragment
pub mod Netif
pub mod Protocol
pub mod Rx
pub mod Tx
pub mod Receive
pub mod Address
pub mod Register
