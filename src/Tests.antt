-- ===== src/Tests.antt =====
-- Runs of the definitions at concrete inputs, and the theorems at inputs that meet their
-- hypotheses. `sample` stands for the standard library: addresses and keys are kept as texts.
pub mod Sample
mod Conf
mod RingAndUpdater
mod Syntax
mod Firewall
mod Driver
mod Signed
mod Tunnel
