-- ===== src/Bench.antt =====
-- TestCanLinux/CAN: the CAN library of the bench program.
mod Memory
mod Message
mod Fields
mod Bits
mod Words
mod Calls
mod Copies
mod Fifo
mod Slices
mod Driver
mod Reception
mod Tests
mod DriverTests
