-- ===== src/Lib.antt =====
-- A verification library for symex-vp, a RISC-V virtual prototype whose RV32 simulator executes
-- machine code on concolic values.
--
-- The parts and the files that model them:
--   * Instr: vp/src/core/common/instr.h and instr.cpp. `Instr/Fields` has the fields and immediates of
--     `struct Instruction`; `Instr/Mapping`, `Mask`, `Encoding` and `Format` the tables of
--     instructions (`Opcode::Mapping`, the `*_MASK` and `*_ENCODING` constants, `getType`);
--     `Instr/Decode` and its children `Instruction::decode_normal`, one function for each `case`.
--     `Instr/Compressed` has the C extension: `decode_compressed`, the `InstructionFactory`,
--     `expand_compressed` and `decode_and_expand_compressed`; its `Listing` and `Spec` are an
--     independent description of each compressed instruction and its operands.
--   * Csr: the registers of vp/src/core/rv32/csr.h, their addresses, masks and fields, and the map of
--     `csr_table` from addresses to registers. The table is a function from registers to words.
--   * Iss: vp/src/core/rv32/iss.h and iss.cpp. `Iss/Hart` is the part of the state of `struct ISS`
--     that register accesses and traps use; `Iss/Rights`, `Read` and `Write` are the access rights,
--     `get_csr_value` and `set_csr_value`; `Iss/Trap` has the trap and interrupt functions, composed
--     as `run_step` composes them. `Iss/Reach` is the relation of the states that a hart reaches.
--   * Bus: vp/src/platform/common/bus.h. `Bus/Lock` is the bus lock, which a trap handler's entry
--     releases; `Bus/Port` is the decoding and routing of `SimpleBus`.
--   * Plic: the interrupt controller of vp/src/platform/common/fe310_plic.h, whose interrupt line is
--     one of those that `Iss/Trap` sets in `mip`.
--   * Slip: the packet codec of vp/src/platform/common/slip.cpp.
--   * Mmu: vp/src/core/common/mmu.h. `Mmu/Walk` is the walk of `GenericMMU` over actions that read and
--     write page table entries; `Mmu/Architecture` is an independent description of Sv32.
--   * Core: the whole hart. `Core/State` is the state of `struct ISS` with what its memory interface
--     and memory management unit keep; `Core/RegFile`, `Operands`, `Execute` and `Step` are the
--     registers, the macros, the cases of `exec_step` and `run_step` of vp/src/core/rv32/iss.cpp;
--     `Core/Debug` is what the debugger reads and writes. `Core/Interface` is the interface
--     of vp/src/core/rv32/mem_if.h, which `Core/Memory` implements: vp/src/core/rv32/mem.h over
--     vp/src/core/common/dmi.h, with `translate_virtual_to_physical_addr` of mmu.h. `Core/Isa` is an
--     independent description of the integer instructions and of M.
--   * Common: shared names, Boolean tests, words and the lemmas on their bits.
--
-- How the code is modelled. Numbers are natural numbers; a 32-bit value is its bit pattern below
-- 2 ^ 32, with the cuts of casts and shifts written out, and a signed right shift is `sar32`. A bit
-- field of a register is its lowest bit and width, read and assigned by division and remainder. A C++
-- exception is a value: `raised` for a trap of the hart, `aborted` for an error or failed assertion
-- that ends the simulation. The assignments of a function become one new state. The loops
-- run over a list or a number of interrupts, by structural recursion.
--
-- What reads and changes the hart's state is an `Action` (`Iss/Action`), from a state to a result and a
-- state; a trap keeps the changes that were made before it. `run`, whose loop may never end, has fuel: the
-- number of its rounds. The walk of the page tables goes down by its level.
--
-- Parameters. The clover library, which computes with concolic values, is the record `Core/Clover`; what
-- the code relies on is `Widths` of `Core/Registers` and `Semantics` of `Core/Semantics`, and
-- `Core/Concrete` is an instance. The bus, the devices and the bytes behind a direct access range are
-- `Devices` of `Core/Memory/Transaction`. What other processes do to the state while a hart waits for the
-- bus, for an interrupt or for SystemC, and the clint's time, are `Environment` of `Core/Interface`.
--
-- Not modelled: SystemC's events and times, tracing and printing; the code under `#if 0` (floating
-- point, supervisor returns, RV64); `make_symbolic`; `InstrMemoryProxy`; the clint, the timers and the other
-- peripherals; the symbolic memory and the control of the exploration. In the relation of `Iss/Reach` an
-- instruction other than a register access or a return may set the program counter and the counters to
-- any word.
pub mod Bus
pub mod Common
pub mod Core
pub mod Csr
pub mod Instr
pub mod Iss
pub mod Mmu
pub mod Plic
pub mod Slip
