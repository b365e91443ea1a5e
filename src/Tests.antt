-- ===== src/Tests.antt =====
-- Runs at concrete inputs, and each theorem at an input that meets its hypotheses.
mod Rings
mod Maps
mod Queues
mod Allocs
mod Cores
mod Kernels
mod Shmem
mod Segs
mod Bitmaps
mod Tables
mod Mpmcs
mod Workers
mod Devices
mod Blocks
mod Servers
mod Ipcs
mod Modules
mod Drivers
