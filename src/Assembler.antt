-- ===== src/Assembler.antt =====
-- assembler: the symbol table, the expressions, the opcodes, the image of the output, and the
-- passes over the statements.
pub mod Symtab
pub mod Expr
pub mod Opcode
pub mod Image
pub mod Modes
pub mod Emit
pub mod Branch
pub mod Directive
pub mod State
pub mod Layout
pub mod Relax
mod Tests
