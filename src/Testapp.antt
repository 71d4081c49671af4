-- ===== src/Testapp.antt =====
-- The test applications, examples/xdma_testapp/testapp_inter.c and testapp_count.c.
pub mod Forward
pub mod Handshake
pub mod Latency
pub mod Main
pub mod Ports
pub mod Threads
pub mod Transfer
