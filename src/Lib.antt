-- ===== src/Lib.antt =====
-- OS-SSKI: four programs that together play an operating system. A console sends a program to the
-- kernel; the kernel schedules processes, one at a time, onto the CPU; the CPU translates
-- addresses with the page tables of the memory module. They talk over sockets in packages.
--
-- Common: shared names, and lists, options and Boolean tests over native numbers.
--
-- Wire, of lib/src/: the byte streams. Word is the `memcpy` of a word (a little-endian machine);
-- Operands models lib/src/connection/operands.c and accion.c, with receive_operands of
-- memory/src/server/cpu_controller.c; Opcode lib/src/connection/opcode.c; Instruction models lib/src/instruction/; Package models
-- lib/src/connection/package.c and the receivers of server.c and conexion.c; Pcb models
-- lib/src/modules/pcb.c. A stream is a list of bytes. Reading past its end is `none`.
--
-- Cpu, of cpu/src/: Tlb models module/tlb.c (both policies; the static cursor of `replace_fifo` is
-- a field); Mmu the address arithmetic and `req_physical_address` of module/cpu.c; Cycle the
-- instruction cycle of module/cpu.c with server/pcb_controller.c and the interrupt of
-- server/request_handler.c. The memory module is an interface, a record of its four requests over
-- a state of any type. A 32-bit word wraps at 2^32, written out where the source computes one.
--
-- Kernel, of kernel/src/: Pids models module/pids.c; Queue lib/src/util/queue/safe_queue.c and the
-- searches of lib/src/modules/pcb.c; Scheduler scheduling/scheduler.c and scheduler_algorithms.c;
-- Threads the long-term, short-term and medium-term schedulers and the I/O unit (scheduling/lts.c,
-- sts.c, mts.c, io_scheduler.c) with the console's handlers (server/dispatcher.c). A semaphore is
-- its count; a thread's round, from one semaphore or sleep to the next, is one step, and
-- Threads.Steps lets any enabled step be next. The answers of the other modules, the measured
-- times and the two double-precision products of `re_schedule` are arguments. `list_sort` of the
-- commons library is a parameter with the law Kernel.Scheduler.Order.Sorts.
--
-- Memory, of memory/src/: Table the rows of module/page_table.c; Frames the taken frames, Process
-- the tables of a process, Store the words of the main memory and Lookup the searches for a frame, of
-- module/os_memory.c; Clock the two selectors of module/algorithms.c, whose static variable `clock` is
-- an argument and a result; Server the whole state and its start, of module/app.c; Swap module/swap.c
-- and fs.c; CpuController and KernelController the handlers of server/; Routine the loop of
-- server/request_handler.c, one round of it. The rows of a process are one list, as
-- `create_big_table` puts them together, and are written back table by table. A reference into a
-- table is the table's number and the row's. Settings has what the configuration says and what the
-- system answers: whether a file opens, whether so many bytes can be mapped (a mapping covers the
-- file and no more), and what `malloc` leaves in a buffer. Sends succeed. A null reference or an
-- access out of bounds is `none`.
--
-- Cpu.Server is the loop of cpu/src/server/request_handler.c, and Kernel.CpuController the kernel's
-- side of it, kernel/src/client/cpu_controller.c; the modules below that follow a process there and
-- back.
--
-- Cpu.Client models the requests of cpu/src/module/cpu.c and the handshake of
-- cpu/src/client/conexion_memoria.c over a link; Memory.Link puts the memory module's loop at the
-- other end of that link, and so fills the interface that the CPU's walk uses.
--
-- Console, of console/src/: the parser's actions of console/semantic.c and the two messages of
-- module/console.c; a constant of the program text is the number its digits say, and `atoi` makes an
-- `int` of it. Kernel.Routine, of kernel/src/server/routines.c, is the loop that receives them, and
-- Kernel.Routine.Session has whole connections.
--
-- Kernel.Client models the kernel's requests to the memory module: client/swap_controller.c, and the
-- exchange for a new process in scheduling/lts.c.
--
-- Util, of lib/src/util/: ThreadManager models thread_manager.c. An identifier is what
-- `pthread_create` gives, and what `realloc` leaves in new places is a parameter.
--
-- Memory.Isolation is about all of the memory module's requests together; Memory.Isolation.Reach has
-- the states that rounds of any clients lead to.
--
-- Examples: the theorems at concrete inputs.
--
-- The fuels are that of Cpu.Cycle.run, the inner loop of `on_run`, for which run-exit says how much
-- is enough, and the number of rounds of Kernel.Routine.rounds, a loop without an end of its own. Of
-- a handler's calls, logging, freeing and delays are left out. Not modelled: the console's start-up,
-- the generated lexer and parser, sockets, configuration, logging, the calls of pthread and signals.
-- Finer interleavings, inside a round, are not modelled either.
pub mod Common
pub mod Util
pub mod Wire
pub mod Cpu
pub mod Kernel
pub mod Memory
pub mod Console
pub mod Examples
