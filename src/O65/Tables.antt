-- ===== src/O65/Tables.antt =====
-- What the assembler writes, field by field and table by table, the linker reads back.
mod Fields
mod Relocs
pub use Fields.*
pub use Relocs.*
