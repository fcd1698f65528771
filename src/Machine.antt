-- ===== src/Machine.antt =====
-- c/i386.c and c/evec.c, and `contextinit` of c/ctsw.c: the tables and the ports of the processor.
pub mod Ports
pub mod Vectors
pub mod Segments
pub mod Boot
pub mod Masks
