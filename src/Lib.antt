-- ===== src/Lib.antt =====
-- openDSU: a shared library, preloaded into a network server, that lets a newer version of the server
-- take over the bound ports of the running one. It wraps the socket functions of the C library, keeps
-- shadow lists of the application's sockets, passes descriptors between versions over Unix domain
-- sockets, and serves these internal connections behind the application's own select or epoll_wait.
--
-- The parts and where they are modelled:
--   Base        shared names, the comparisons on numbers, integers over the native numbers, lists.
--   State       src/state.h and src/state.c: a `struct dsu_socket_list` is the record DsuSocket, and a
--               list linked by `next` is a List of nodes. The functions keep their names without `dsu_`
--               and return the lists that the C code changes in place. A node that a function changes
--               through a pointer is written back into its list by its descriptor (sockets_update_fd).
--   State.Heap  the functions of src/state.c on memory: chains of nodes, pointers to pointers, malloc
--               and free; and the loop of dsu_handle_conn that removes from the list which it walks.
--   Kernel      the system calls the library makes (Call), what they report (Reply), the program's
--               globals with errno and the calls made so far (World, for dsu_program_state), and
--               programs over them (Prog). The system is a parameter: a function from the calls so far
--               and the next call to the reply. What is assumed of it stands in the hypotheses of a
--               theorem: Responsive (calls that do not wait come back), IsQueue (a socket pair delivers
--               what was sent), Reports and Fills (the numbers that select and epoll_wait return
--               are those of what they write), NeverAccepts (a descriptor in use is not given out),
--               HasCapacity and Roomy (a queue takes a message). A call that waits may never come back.
--   Kernel.Stuck   why a run did not come back.
--   Kernel.Runs three ways to describe a run: Returns (it comes back, and so on), Safely (if it comes
--               back), Ends (it comes back, exits, waits, crashes or runs out of fuel, each with what
--               holds).
--   Kernel.Frame  what a program leaves alone: rules that carry a relation between the worlds before
--               and behind through its steps. The modules named Kept apply them.
--   Communication  src/communication.c: dsu_write_fd and dsu_read_fd, down to the control message.
--   Core.Handover  src/core.c: dsu_monitor_init, dsu_inherit_fd, and the address of a port.
--   Core.Workers   src/core.c: the number of active workers, dsu_termination_detection, dsu_terminate.
--   Core.Workers.Interleaved  the same code for many workers at once: a worker is a program counter
--               over the calls of dsu_activate_process and dsu_terminate, a step is one call of one of
--               them, in any order, or a call elsewhere that does not touch the queue.
--   Core.Wrappers  src/core.c: dsu_init, signal, sigaction, socket, bind, accept, accept4, close.
--   Core.Debug     src/core.h and src/core.c: the print macros, the log file, and the wrappers of the
--               builds with DEBUG or TEST. The wrappers of the other parts are those of the build
--               without, where a print macro is empty.
--   Forall      src/state.h: dsu_forall_sockets over the binds.
--   Messages    one message on an internal connection, common to the two event handlers.
--   Select      src/event_handlers/select.c: a pass before and three behind the system's select.
--   Epoll       src/event_handlers/epoll.c; Epoll.Compact is dsu_epoll_correct_events.
--   Life        a process from the constructor on: a step is one call of any of the wrapped functions
--               (those of the build without DEBUG), or anything outside the library; the worlds that
--               steps reach, and the invariants.
--   Exec        src/exec.c: the launcher.
--   Examples    tests and concrete systems.
--
-- How they interact: bind (Core.Wrappers) looks up the node that socket made, asks Core.Handover to
-- listen on the port's address or to inherit the port from the version that listens there, and moves
-- the node from the sockets to the binds. select and epoll_wait then run over the binds: they accept
-- other versions, answer their requests with Communication, mark a port as ready, and call
-- Core.Workers to end this version once it has nothing left to do.
--
-- Bounds and fuel: the wrappers select and epoll_wait call themselves again when only internal events
-- were reported, without a bound in the source; the models take fuel for these restarts and end with
-- out_of_fuel, which no theorem counts as coming back. A wrapper runs out only if each round has called
-- the system's wait once and none of these calls reported anything for the application. All other loops are structural recursion on a list, or on a fuel that is at least the
-- number of rounds: the decimal digits of a 16-bit port (five) or of an int (ten), the
-- compaction of an array of events (its length), and the walks on memory, which get one round more
-- than the list has nodes.
--
-- Integers: descriptors and ports are integers, since -1 stands for none; what crosses the wire is
-- reduced to 32 bits where it is encoded.
--
-- Not modelled: the lines that the print macros add to the other parts in a debugging build, the look-up
-- of the system's functions by dlsym (the system is the parameter), src/utils.c (all in comments), the
-- test servers and the benchmarks. Threads that share the lists are not modelled: a wrapper
-- runs without another one of the same process in between. Other processes act through the replies
-- of the system, and the workers of a group are interleaved where they count themselves.
pub mod Base
pub mod State
pub mod Kernel
pub mod Communication
pub mod Core
pub mod Forall
pub mod Messages
pub mod Select
pub mod Epoll
pub mod Life
pub mod Examples
pub mod Exec
