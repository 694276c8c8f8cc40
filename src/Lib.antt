-- ===== src/Lib.antt =====
-- A model of the programs of this repository and proofs about them: the CPU scheduling simulator of
-- assignments/assignment4/simulator with its scheduling algorithms, the threads and processes of
-- assignments/assignment2, the kernels of tutorials/tutorial6, tutorial7 and tutorial8, and the sort
-- functions and palindrome.c of tutorials/tutorial5.
--
-- The simulator. `main` of simulator.c reads the processes, refuses bad ones and calls
-- `run_simulation`. That loop, for each unit of time, hands the arrivals to the scheduling algorithm
-- with `add_to_ready_queue` and asks it with `get_next_scheduled_process` for the PID to run. The
-- algorithm is compiled in as scheduler.c, and the two functions are all that the two parts share.
-- Process has the two as a record `Scheduler` over a state, the file-level variables of the
-- algorithm, and the contract `IsWorkConserving` between them: the simulator's theorems take it as a
-- hypothesis, and each algorithm has a theorem that it keeps it.
--   * Base: names of the libraries passed on, Boolean tests and wrap-around of unsigned ints
--     (Base/Tests), lists (Base/Lists), masks of bits (Base/Bits).
--   * Process: `process_initial`, the two functions, the contract; Process/Calls: calls in a row.
--   * Simulator: `still_running`, `get_pid_index`, `run_simulation`, `calculate_turnaround_time`,
--     `calculate_wait_time` of simulator.c. `simulate` is the loop over `time`, on the rounds left
--     until `time_bound`. Simulator/Input: `strtoui`, `read_process_initial` and the loop of `main`
--     that checks the processes and fills the array. The other files below Simulator are proofs:
--     what the loop keeps (Invariant, Arrivals, Running), what it prints (Steps), how it ends
--     (Outcome, Correct, Faults), and what the input checks give (Input/Checked, Input/Parsed).
--   * Simulator/Main: the averages, `print_statistics`, `usage` and the whole of `main`, from the
--     arguments to the status that it returns, with each message as a value; Main/Average: the
--     averages in terms of the times; Main/Finish: a whole run.
--   * ReadyList: the list functions that the algorithms share, `add_next`, `remove_next` and the
--     loops of `add_to_ready_queue`, with their laws. A list stands for the nodes behind a sentinel.
--   * Fcfs: submissions/submission/fcfs.c, with the list as a list.
--   * Linked: algorithms/fcfs.c, the same text, with its nodes at addresses in an explicit memory,
--     `malloc`, `free` and the output of debug mode. A function is a state transformer that fails on
--     an access to memory that is not allocated, on a double `free` and without fuel. Linked/Chain
--     is what it is for nodes to form a list, Nodes, Insert, Place, Turn and Loop have what the
--     functions do on such nodes, and Refines, Adding and Calls relate them to Fcfs.
--   * QuantumProcess: the node that the algorithms with a quantum share.
--   * RoundRobin: submissions/submission/rr.c; Rounds: the whole schedule of waiting processes.
--   * Feedback: submissions/submission/constant.c and exponential.c, which differ in the quantum of
--     a priority level; the model takes it as an argument. `run_current` is the code behind the
--     choice of `current`.
--   * Custom: submissions/submission/custom.c. Numbers of type `double` are a parameter,
--     `Arithmetic`; what the theorems need of them is `ScoresAreFinite`, for scores of processes
--     that have run, and `ComparesNumbers`. Best: which process the smart queue gives.
-- In each, Work proves the contract; Order, Priority and Turns say in which order processes run.
-- Schedule has what readme.md of the simulator promises of FCFS, a schedule computed from the processes
-- alone, and Schedule/Run compares what the simulation prints with it. Simulator/Related says when
-- two algorithms give the same simulation; Linked/Simulated applies it to fcfs.c with its nodes in
-- memory, for which Linked/Scheduler makes its functions an algorithm of the simulator.
--
-- The threads. Threads has thread.c of assignments/assignment2 as a step relation, one step for
-- each access to shared state and each call of the pthread library, which may fail; and the loop
-- of loop.c. Threads/Invariant is what every interleaving keeps, Threads/Safety and
-- Threads/Finish are what follows for the output, the mutex and the end of the program. Mutex
-- has assignments/a2prepquiz/pthread_mutex_intro.c, whose threads add a value each;
-- Mutex/Simulates shows that thread.c, with other results, does each of its steps. Join has
-- pthread_create_intro.c and pthread_join_intro.c of that directory, which differ in the call of
-- `pthread_join`. Wait has fork_intro.c, wait_intro.c and waitpid_intro.c, with the lines of
-- parent and child in one output. Fork has fork.c, with the calls of `fork` and `waitpid` as
-- parameters, and Fork/Total what its parent prints.
--
-- The kernels. Console has `set_cursor`, `write_char`, `write`, `write_string` and `clear_screen` of
-- tutorials/tutorial8/kernel.c, with video memory as a function of the offset and the bytes sent to
-- ports as a list, and Console/Keyboard `keyboard_handler_main` and `keyboard_map`.
-- Kernel has the rest of that file: the GDT and the IDT with their entries, what the two controllers
-- are sent, and `kmain` up to the call of the module; Kernel/Fields says what the processor reads
-- from an entry, and Kernel/Start what `kmain` leaves. HelloKernel is
-- tutorials/tutorial6/kernel.c, FirstKernel tutorials/tutorial7/kernel.c, before it could scroll.
--
-- Exercises. Sort has `sort`, `sortById` and `sortByValue` of tutorials/tutorial5/sort.c over one
-- pair of loops, Sort/Passes what a round of the outer loop does, and Sort/Sorted the whole.
-- Palindrome has tutorials/tutorial5/palindrome.c; Palindrome/Mirror says which characters
-- `is_palindrome` compares, Palindrome/Written what `main` writes.
--
-- Numbers. An unsigned int is a natural number; a sum that may wrap is reduced by `u32`. Of ints
-- only values that are not negative occur, but in the arrays of sort.c.
--
-- Bounds. A `for` loop recurs on the rounds left; for `simulate` they are those until `time_bound`.
-- The loop that fills a line of the screen gets 80 rounds, the cells of a line; the loop that
-- scrolls gets two, since no character moves the cursor by more than 80 cells, and the theorems
-- start from a cursor on the screen. `is_palindrome` has fuel, more than the characters of the word,
-- which `main` keeps in an array of 256.
-- The loops of Linked have fuel above the number of calls made, and so above the length of the list.
--
-- Not modelled: what happens when `malloc` fails; the stack that the array in `main` takes;
-- tutorials/tutorial8/multiboot.h and the assembly files; the programs that only call the
-- operating system or print constants, assignments/a2prepquiz/loop_quiz.c and `main` of sort.c.
-- A keyboard interrupt while a kernel writes to the screen is not modelled either: the screen
-- functions and `kmain` are runs without one, and the handler is a function of its own. The messages
-- of custom.c on a missing history are left out; where it would then dereference NULL, its state
-- says so. What the C library, the operating system, the ports and the arithmetic on `double` give
-- is a parameter.
pub mod Base
pub mod Console
pub mod Custom
pub mod Fcfs
pub mod Feedback
pub mod FirstKernel
pub mod Fork
pub mod HelloKernel
pub mod Join
pub mod Kernel
pub mod Linked
pub mod Mutex
pub mod Palindrome
pub mod Process
pub mod QuantumProcess
pub mod ReadyList
pub mod RoundRobin
pub mod Schedule
pub mod Simulator
pub mod Sort
pub mod Threads
pub mod Wait
