-- ===== src/Machine.antt =====
-- The machine that the C code runs on, as far as the code can see it: byte-addressed memory, and
-- the ports that IO.c reaches through `outb`, `outw` and `inb`.
pub mod Memory
pub mod Ports
