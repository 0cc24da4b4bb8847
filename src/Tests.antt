-- ===== src/Tests.antt =====
-- Runs of the modelled code at concrete inputs, and the theorems applied to them.
mod Data
mod Util
mod Link
mod Arp
mod Ip
mod IpFragment
mod TcpBlocks
mod TcpRx
mod TcpApi
mod IpText
mod Device
mod IpReceive
mod IpMixed
