-- ===== src/Providers.antt =====
-- internal/provider: the DNS providers, with what they share.
pub mod Errors
pub mod Client
pub mod Settings
mod Texts
pub mod Any
pub mod New
pub mod Replies
pub mod Confirm
pub mod Accepted
pub mod Requests
pub mod Abuse
pub mod Ready
pub mod Noip
pub mod Allinkl
pub mod Dnsomatic
pub mod He
pub mod Dyn
pub mod Variomedia
pub mod Strato
pub mod Desec
pub mod Inwx
pub mod Selfhostde
pub mod Dynu
pub mod Ddnss
pub mod Easydns
pub mod Zoneedit
pub mod Dd24
pub mod Freedns
pub mod Spdyn
pub mod Changeip
pub mod Opendns
pub mod Dynv6
pub mod Infomaniak
pub mod Nowdns
pub mod Goip
pub mod Duckdns
pub mod Namecheap
pub mod Updating
pub mod Custom
