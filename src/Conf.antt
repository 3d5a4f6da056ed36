-- ===== src/Conf.antt =====
-- conf/: the configuration of a tunnel, its wg-quick text, and the names of tunnels.
pub mod Types
pub mod Values
pub mod Keys
pub mod Comment
pub mod Settings
pub mod Name
pub mod Parser
pub mod Config
pub mod Driver
pub mod Uapi
pub mod Writer
