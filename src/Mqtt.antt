-- ===== src/Mqtt.antt =====
-- src/mqtt/secure_mqtt.cpp, src/mqtt/client.cpp and src/mqtt/channel.cpp, with their headers.
pub mod Acl
pub mod AclLaws
pub mod Topics
pub mod Envelope
pub mod Signing
pub mod Client
pub mod Delivered
pub mod Subscriptions
pub mod Matching
pub mod Reconnect
pub mod Channels
pub mod ChannelTable
pub mod Examples
pub mod ExamplesClient
pub mod ExamplesChannels
