-- ===== src/Examples.antt =====
-- Small inputs, and the theorems at them.
mod Samples
mod Chains
mod Rules
mod Plugins
mod Requests
mod Running
mod Keys
mod Web
mod Market
mod Settings
mod Files
