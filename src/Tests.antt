-- ===== src/Tests.antt =====
-- Tests of the model on small inputs, and the theorems at inputs that meet their hypotheses.
mod Instances
mod Dpdk
mod Plain
mod Config
mod Ddos
mod Scans
mod Sender
mod Log
mod Keys
mod Turns
mod Kni
mod Traffic
mod Table
mod Sources
mod Start
mod Threads
mod System
