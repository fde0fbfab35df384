-- ===== src/Lib.antt =====
-- A model of the kernel of the Raspberry Pi operating system, of its pipe service, of the loader of its
-- programs and of the boot loader that brings the kernel, with the theorems that make them correct.
--
-- The kernel (os/src/bin/kernel) owns the pages of physical memory and the running programs, which
-- it calls executions. A program enters it by a system call; it answers, jumps into an execution,
-- or leaves the core idle until the run queue has an execution.
--
-- + Prelude: Boolean tests on numbers, lists, and the outcome of code that may panic.
-- + Memory models os/src/bin/kernel/memory/mod.rs. Memory.Region is `RegionAllocator`, a start and
--   a list of 16-bit counts, and Memory.Allocator is `PageAllocator`. A page is its address; page
--   number n has the address n * 65536. Their specification is a count for each page number
--   (Memory.Region.Refs, Memory.Allocator.Refs).
-- + Execution models `Execution` of os/src/bin/kernel/execution/mod.rs, and Execution.Map the
--   `ExecutionMap` of os/src/bin/kernel/execution/execution_map.rs. Execution.Search is the binary
--   search of the standard library as a loop on fuel; the length of the list is enough, since the
--   distance of the two bounds shrinks in each round. `Execution::clone` and the drop of an execution
--   reach the memory by `add_ref` and `remove_ref` of each page.
-- + Kernel models `handle` of os/src/bin/kernel/exception/svc/mod.rs, one function per call, and
--   `jump_into_async`, `add_to_running`, `exit` and `idle_loop` of
--   os/src/bin/kernel/execution/mod.rs, on a record of the kernel's statics. Kernel.Invariant ties
--   the counts of the memory to the owners of the pages.
--   Whether the idle loop has left the run queue locked is part of that record: who locks it then waits
--   for ever, as the result `waits`.
-- + Kernel.Schedule adds the cores. A step is one system call, or one round of the idle loop, of one
--   core; Kernel.Schedule.Boot is the end of `main` of os/src/bin/kernel/main.rs. `current` is the value of
--   TPIDRRO_EL0, the register that `execution::current()` reads. No code of the kernel writes it, so each
--   core has a value of its own in the state, which is any number.
-- + Exception models os/src/bin/kernel/exception: Exception.Classes and Exception.Codes the
--   enumerations with the conversions that macros/src/lib.rs derives, Exception.Syndrome what
--   data_abort.rs and instruction_abort.rs read from the syndrome register, Exception.PageFault
--   page_fault.rs, the handler of mod.rs, `handle_eret`, and the exception stack of `UserContext`.
--   The getters of the crate bitfield_struct are a parameter, a record with the law of their layout,
--   and so is what the hardware translates an address to.
-- + Sync models the spin lock and the reader-writer lock of os/src/sync/mod.rs and the cell of
--   os/src/cell/mod.rs, as the accesses of any number of threads to their atomics, in any order.
-- + BumpAllocator models os/src/bin/kernel/bump_allocator.rs.
-- + Pipe models the pipe service, user/src/bin/pipe, on the map of user/src/pid_map.rs (Pipe.PidMap).
--   Pipe.Channel reads the requests of service_channel.rs and Pipe.Responses writes the responses, in
--   two ring buffers; Pipe.Processes is pipe.rs and process.rs, with the shared pipes in a store;
--   Pipe.Service is `handle_message` of main.rs. `read_bytes` counts down the length that the message
--   gives, `encode` writes down the format of each request, and the loop of `handle_message` is on
--   fuel, of which one more than the requests in the buffer is enough.
-- + Vm models os/src/os/vm: Vm.Tables the entries of a page table and `map_range` of mod.rs, for the only
--   address spaces there are, of 25 bits with pages of 64 KiB, and Vm.Elf the headers of a file and
--   `load_elf` of elf.rs. Sums of `u64`s wrap around. `with_pa` of the crate bitfield_struct is a
--   parameter that keeps the 36 bits of its field.
-- + Bootloader models bootloader-loader/src and bootloader-server/src: Bootloader.Uart the operations of
--   the driver uart.rs on the list of what it will find in the registers, Bootloader.Gpio the pins of
--   gpio.rs, Bootloader.Uart.Setup the registers that `Uart::new` and `set_divider` write,
--   Bootloader.Loader `try_load_kernel` and the loop of `main`, and Bootloader.Server the server's loop,
--   one event that is read after the other. The loop of the boot loader retries for ever on a broken line,
--   so it is on fuel, and out of it is a result of its own. What is proved is about one attempt.
-- + UserLibrary models user/src: UserLibrary.Syscalls the system calls of user/src/os/syscalls.rs, on the
--   kernel's `handle`, UserLibrary.Start how runtime/init.rs reads the arguments and allocates a box for
--   them on its heap of 4 bytes, where for how many slices the collection asks is a parameter, UserLibrary.Stdio and
--   UserLibrary.Errno the files of stdio/mod.rs and errno.rs, and UserLibrary.Signals the
--   `AtomicBox` and the handlers of runtime/exception.rs. One access to a box is one step.
-- + Assembly is the instructions that save and restore registers, of which UserLibrary.Context,
--   Init.Context and Bootloader.Entry have the programs. A handler that they call is a parameter, which
--   keeps to the C ABI.
-- + KernelEntry models the loops, the table and the stacks of os/src/bin/kernel/boot.rs, and where `main`
--   puts the heap. Its loops are on fuel, of which one more than the bytes is enough.
-- + Init models os/src/bin/init: Init.Context and Init.Handlers its exception.rs, Init.Syscalls its
--   syscalls.rs, Init.Entry `_start` and `temporary_map` of main.rs on a memory of bytes, and Init.Main
--   its `main` on the kernel and `load_elf`. The loops of `_start` are on fuel, of which one more than the
--   bytes is enough.
-- + KernelUart models os/src/bin/kernel/uart.rs, on the list of what it will find in the registers.
-- + Mailbox models os/src/bin/kernel/mailbox.rs, with the firmware and the register `PAR_EL1` as
--   parameters and the words of the status registers as a list. Mailbox.Cache has the addresses that
--   `send` maintains the cache for.
-- + Tests has concrete inputs.
--
-- One system call, and one round of the idle loop, is one step: what another core does between
-- two accesses of such a step is not modelled, nor is a panic's effect on the other cores. Of the
-- locks of the statics only that of the run queue is part of the kernel's state, since a guard of it
-- outlives a step. PIDs, counts and addresses are natural numbers, and where the source checks a
-- conversion or an addition the model has the bound. The prints of `exit` and of the handler of page
-- faults are modelled, as they panic on an error of the UART; those of `jump_into_async`, of the start of
-- a program and of its handler of signals are left out. The bytes of user
-- memory and the answers of the UART are parameters. Not modelled are the other
-- assembly, memory orderings, what the maintenance of caches does, the device tree,
-- user/src/heap, which no crate includes, and user/src/os/vm and user/src/bump_allocator.rs, which are
-- copies of the kernel's files.
pub mod Prelude
pub mod Memory
pub mod Execution
pub mod Kernel
pub mod Exception
pub mod Sync
pub mod BumpAllocator
pub mod Pipe
pub mod Vm
pub mod Bootloader
pub mod Assembly
pub mod KernelEntry
pub mod UserLibrary
pub mod Init
pub mod Mailbox
pub mod KernelUart
pub mod Tests
