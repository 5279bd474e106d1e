-- ===== src/Lib.antt =====
-- Models of the n65 toolchain for the 6502: a compiler for the language n (compiler), an
-- assembler (assembler), an archiver (archiver) and a linker (linker). The assembler writes an
-- object file in the o65 format; the linker reads object files, places their segments in the
-- memory regions of its configuration, gathers the global symbols, applies the relocations and
-- writes a ROM image as an Intel HEX file. The archiver keeps object files in archives, from which
-- the linker takes the objects that are needed. The compiler turns the text of an integer literal
-- into the bytes of the target's integers, and computes floats with large natural numbers.
--
-- Prelude holds what the modules share: Boolean tests on numbers, lists indexed by native numbers,
-- C strings as lists of bytes, signed numbers. Digits is about numbers in a base, the lowest digit first.
--
-- Integer is compiler/integer.c. `target` is the list of its bytes, so its length is `size`; the
-- outcome of a call is a value or one of the two errors. Integer/Numeral says which
-- number a literal denotes, apart from the code, Integer/Value has the invariant of the digit loop,
-- Integer/Literal the whole literal, Integer/Sign the minus sign.
-- `make_le_helper` and `make_le_decimal` are one loop with two radixes. `parse_int` is that of a
-- little-endian host.
--
-- O65 holds the object format: O65/Reader is the parsing part of linker/n65ld_input.c, where a
-- `reader_t` is the rest of the input, and O65/Writer the writing part of assembler/o65.c, where
-- the output is a list of bytes. O65/Tables and O65/Object are about the tables and the whole
-- file. The loops over options and relocations run on fuel: each round takes a byte at least, and
-- the fuel is one more than the length of the input. `write_delta` runs on the difference that it
-- writes. An object file of the model leaves out its origin and the fields that only the
-- placement sets.
--
-- Linker is linker/n65ld.c. A message with `exit(1)` is an error of the type `Fault`; one fault,
-- `undefined_access`, stands for an access outside of an array. Linker/Place has the memory
-- regions and the cursors (`find_memory`, `ensure_cursor`, `alloc_from_region`), a cursor being
-- named by its index; Linker/Symbols the table of globals (`add_global`, `lookup_global_addr`);
-- Linker/Reloc the relocations (`apply_segment_relocs`, `resolve_all`), which change the bytes of
-- a segment one after the other; Linker/Image the image (`image_write`) and the HEX file
-- (`write_intel_hex`), with the arrays `image` and `used` as one list of cells. The loop over the
-- records of the HEX file runs on the number of cells, of which each round takes one at least.
-- Linker/Rom has the table of init functions and the whole image (`build_rom_image`); a table of
-- records is as long as its count says, below 64 KiB.
-- The regions of a configuration, the globals and the relocations are lists in their order.
--
-- Linker/Select is `select_needed_objects` of linker/n65ld_input.c. A pointer to an object is its
-- position in the inputs, and each archive member has the two marks `selected` of the program. The
-- loop runs on fuel: a round that goes on links an object, so one round more than there are objects
-- not linked is enough. Linker/Load is `load_archive`; its loop takes a header at least in each
-- round, and the fuel is one more than the length of the file. Linker/Select/Kept is about what the selection
-- leaves of its inputs.
--
-- Abi is linker/n65ld_abi.c with the part of compiler/abi_meta.c that names the exports: Abi/Encode
-- and Abi/Emitted are about what the compiler writes and the linker reads, Abi/Agreement about
-- `validate_abi_metadata`. A record of the model leaves out its origin, and a decoded field is the C
-- string in its buffer.
--
-- Archiver is archiver/n65ar.c, with a file as the list of its bytes and the files that the commands
-- read as a parameter, a function from names to contents. Archiver/Format is about the fields,
-- Archiver/Records about an archive as a list of members, Archiver/Requests about the members that
-- are asked for, Archiver/Extract and Archiver/Update about
-- the commands, Archiver/Modes about the mode string. The loops over members run on fuel as in the
-- linker; `copy_loop`, over chunks, on one more than the bytes to copy.
--
-- BigNat is compiler/float_bignat.c: lists of 32-bit words, the lowest first, without the zeros that
-- the array has behind `len`. BigNat/Normal says what a number is: words in range and a highest word
-- that is not 0. BigNat/Carry has products and sums with a word, BigNat/Small quotients by a word,
-- BigNat/Shift, BigNat/Order, BigNat/Subtract and BigNat/Bits the other routines, BigNat/Divide the
-- long division and BigNat/Round the rounding of a ratio. A word has at most 32 bits, so 32 rounds
-- find its length.
--
-- Assembler is the assembler. Assembler/Symtab is symtab.c, Assembler/Expr expr.c, where a value is a
-- signed number and leaving the range of a `long` is an outcome of its own, Assembler/Opcode opcode.c
-- without the reading of its files, so that the table of opcodes is a parameter, and Assembler/Image
-- ihex.c. Assembler/Modes, Assembler/Layout, Assembler/Emit, Assembler/Directive and Assembler/Relax
-- are asm_pass.c: the forms of instructions, the first pass, what the second pass emits for an
-- instruction and for a directive, and the relaxation with both passes over a program.
-- Assembler/State, with Scopes and Segments below it, is asm_state.c. A pointer to a symbol or a
-- segment is its name. An operation of the second pass takes the image and the count of errors, and
-- says if the statement goes on. The memory behind the buffer of a string is a parameter. The
-- relaxation runs on 50 rounds and the constants on 64, as in the code. Assembler/Emit/Writes has
-- the interface of the proofs about emission, Assembler/Emit/Encode and Assembler/Directive/Encode
-- the bytes apart from the image, Assembler/Directive/Halves the two bytes of a word,
-- Assembler/Relax/Passes one statement in both passes, and Assembler/Branch the processor's view of
-- a branch.
--
-- Pair is compiler/pair.c, the compiler's map from names to pointers: a list of 101 chains. A
-- pointer is a number, with 0 for NULL; freed memory is not modelled.
--
-- Not modelled: files and messages, memory that runs out, the parsers that flex and bison make, the
-- sources, macros, listing and map file of the assembler, the compiler's types and its code generator,
-- floats beyond their big naturals, the fingerprints of types, the check of the call graph, the
-- simulator and the run-time libraries.
pub mod Prelude
pub mod Digits
pub mod Integer
pub mod O65
pub mod Linker
pub mod Pair
pub mod Abi
pub mod Archiver
pub mod Assembler
pub mod BigNat
