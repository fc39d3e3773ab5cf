-- ===== src/Examples.antt =====
-- Concrete states, and the theorems at them.
mod State
mod Boot
mod Devices
mod Drives
mod Files
mod Keys
mod Kernel
mod Machine
mod Power
mod Shell
