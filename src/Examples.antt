-- ===== src/Examples.antt =====
-- The theorems at concrete inputs, and runs of the modelled code that can be followed in the source.
mod Connection
mod Protocol
mod Push
mod Downlink
mod ServerLive
mod Encoding
mod ServerPush
mod Authority
mod Rebase
mod ServerConfig
mod Acknowledge
