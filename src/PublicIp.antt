-- ===== src/PublicIp.antt =====
-- pkg/publicip: the fetchers of the public address.
pub mod Urls
pub mod Http
pub mod Dns
pub mod Cycling
pub mod Info
