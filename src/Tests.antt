-- ===== src/Tests.antt =====
-- Runs of the definitions and of the theorems on concrete inputs.
mod Link
mod Transport
mod App
mod Outstation
mod Master
mod Tcp
mod Serial
mod Examples
