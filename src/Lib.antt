-- ===== src/Lib.antt =====
-- Aru: the emulated machine, the parts that its processes share and its assembler,
-- the C functions of the repository written as functions on explicit state.
--
-- The emulator, the CPU process and the shell share a page with signals and a small heap; the CPU
-- runs the cycle of the machine over 4 GB of emulated memory.
--
-- - Base: numbers, Boolean tests, lists, texts and machine words. A word of w bits is a natural
--   number below 2 ^ w, and wrap-around is written out (u32, sub32, <<<).
-- - Isa: opcodes, conditions and instruction types (headers/emulator/cpu/instr.h), and the table of
--   emulator/cpu/cpu.c.
-- - Shared.SigHeap: shared/sigHeap.c. The heap is a function from offsets to words; smalloc, sfree
--   and sinit return the new heap. The loops over the free list take fuel, one unit for a round;
--   what amount is enough is stated where a theorem says that they return.
-- - Shared.Signals: shared/emSignal.c. A signal is a record of four words and the three words of
--   the metadata union; a function returns the new signal and its result, none for -1.
-- - Cpu.Mem: emulator/cpu/mem.c. Memory is a function from addresses to bytes; the checks of a read
--   or write are functions to the error code.
-- - Cpu.State, Cpu.Hardware: core_t and emulator/cpu/hardware.c (alu, regfile, imem, dmem).
-- - Cpu.Pipeline and its children: emulator/cpu/core.c (fetch, decode, execute, memory and a cycle of
--   runCore). A stage returns the next core, the core at which fault kills the process, or
--   undefined for what C leaves undefined. The registers that extractRegs leaves unset are a
--   parameter.
-- - Cpu.Isolation: the stages started in user mode.
-- - Asm.Operands, Asm.Words, Asm.Encoder: assembler/encoder.c. Registers and operands; the opcode
--   tables, immediates and words of the formats; the encoders of an instruction, with the CPU that
--   decodes their words in Link, Branches, Conditions and Decoded. A fatal error ends the process
--   and is the result fatal. eval is a parameter with the symbol table as its state, which
--   Asm.Encoder.Expressions fills.
-- - Asm.Symbols: assembler/SymbolTable.c. The table is the list of its entries, and a pointer to an
--   entry is the entry's place.
-- - Asm.Lexer, Asm.Eval: assembler/evaluator.c. nextToken takes the text from the lexer's position
--   and returns a token and the text behind it; strtol is written out with a long of 64 bits. parse,
--   _eval and its loop pass the lexer, the symbol table and canEval on as a state, and each call and
--   round costs one unit of fuel; a theorem bounds the fuel by the text's length where no symbol
--   holds an expression, and by the expression where there is one.
-- - Asm.Stream: encode and encodeSpecial on a stream, which is a list of instructions; the rounds of
--   the loop are counted by the length of the stream. Pieces has the three immediates of a split ld,
--   Numerals how the evaluator reads what is printed for them, and Places where they are stored.
-- - Asm.Strtok: strtok_r of the C library, which returns a token and the text behind it; the pointer
--   that the program passes on is that text. Asm.Outcome: postconditions of fallible functions.
-- - Asm.Tables: assembler/DataTable.c, SectionTable.c and InstructionStream.c. The section table is a
--   function from the section's number, and the tables are lists.
-- - Asm.Names, Asm.Labels, Asm.Directives, Asm.Instructions: assembler/lexer-parser.c over the state
--   Assembly of tables, symbols, objects and the flag halt. Directives has .set and .glob in Define,
--   the data directives in Data and handleDirective in Handle; Instructions has handleM in Memory
--   and handleInstruction in Handle. The evaluator and strtof are parameters. A deferred expression
--   is kept by value. Reading through a null pointer and writing behind a buffer is the result
--   crashed.
-- - Asm.Preprocess: assembler/preprocessor.c. Pointers are places in the text behind the first blanks.
-- - Asm.FirstPass: the loop of main of assembler/assembler.c over the lines that preprocess returns.
--   The pointers that main leaves unset for user programs are 0.
-- - Asm.SecondPass: the checks of main between the passes, resolveSymbols, completeData and, in
--   Fixed, fixInstrs, with the forms of its results in Forms.
-- - Asm.Object: assembler/generator.c and headers/aoef.h. Arrays are lists of bytes; what the program
--   leaves unset in the file is a parameter. Write has the image that writeBinary writes.
-- - Asm.Program: the order of these steps in main, from the lines of the source to the object
--   file.
--
-- Not modelled: the bookkeeping of runCore around idle states and its threads, process control and
-- Unix signals, log output, the loader, the shell, and of the assembler the options and the
-- opening of files.
pub mod Base
pub mod Shared
pub mod Isa
pub mod Cpu
pub mod Asm
