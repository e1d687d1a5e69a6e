-- ===== src/Lib.antt =====
-- FileReadSpeedTest: a program for Windows that reads a file in buffers with overlapped requests, a
-- pool of threads and a completion port, and prints how long each request took.
--
-- The parts. `main` (Code/EntryPoint.cpp) parses the command line, makes a pool of threads, opens the
-- file, makes one context for each buffer of it, gives each thread a first task, issues as many
-- reads as the queue is deep, and waits on its own queue. A task waits for a completion, marks the
-- context that completed, reads the context `queue_depth` further on and queues its successor; at
-- the end of the file it tells the main queue, which shuts down when all the threads have.
--
-- Which file models what:
--   Win32         the calls of Windows, the clock and the console, an interface over an unknown world
--   Words         the widths of the machine's integers
--   Handles       Code/Win32Types: GenericHandleObject and its moves and destructor
--   Allocator     Code/OSAllocator: allocate and deallocate
--   FileRead      Code/OverlappedIOFileRead: CreateOverlappedIOFile, GetIdealBufferSize,
--                 PrepareToReadFile, CreateIOContexts, Read, GetNewReadOffset, PrintResults;
--                 FileRead/Worker, WorkerThread; FileRead/Waiting, WaitForThreadsToFinish
--   TaskQueue     what is called of the queues and threads of Dependencies/max/Hardware/CPU
--   ReadTask      Code/OverlappedIOFileReadTask: Run of OverlappedIOFileReadTask and of Finished
--   StateMachine  what is called of Dependencies/max/Containers/StateMachine
--   CommandLine   Code/CommandLineParameters: ProcessCommandLineParameters
--   Cores         Code/GetProcessorCoreInformation
--   ThreadPool    Code/ThreadPool: both CreateThreadPool
--   EntryPoint    Code/EntryPoint.cpp: the loops and choices of main; EntryPoint/Main, main itself;
--                 Default, Sessions, Reported, Bytes and Whole put its parts together
--   System        the steps that the threads, the main thread and the world take, in any order:
--                 Invariant, Moves and Tells say what a step does, Counts and Balance relate the
--                 queues to the counter, Work measures what is left in them, and Reads, Share,
--                 Turns, Following and Visits follow each thread through its contexts.
--                 System/Flight, the same with the reads that are in flight: `main` issues its
--                 reads among the steps of the threads
--   Base          effects, lists, differences and quotients that all of them share
--   Tests         runs at concrete data
--
-- How code becomes definitions. A function with effects takes the world, or the objects that the
-- tasks share, and gives its result with the new one, or none: the outcome of an index out of range,
-- a null pointer that is read, a division by zero, or the termination of the program. Machine
-- integers are natural numbers, and where the code's integers wrap, the modulus is written out. The
-- handle objects are moved and destroyed where the code does so. The library `max`, a copy of
-- another project's, is a parameter: StateMachines, TaskQueues, TaskThreads, and the runner loop as
-- an argument of `main`. What is relied on is said by IsFirstMatch, IsFifo, IsResponsive,
-- IsPrompt, IsJoinable and IsDestructible, that of strtoull by IsStrtoull and IsPrinter.
--
-- Bounds. The walk over the cores has a fuel of one more than the size of the buffer, since each
-- structure that tiles the buffer has at least one byte; all other loops count down their rounds.
--
-- Interleavings. A step of System is one whole run of a task, from the end of its wait on, with the
-- pop before it: runs do not overlap. There a wait may give any context that exists, also one that
-- it has given before or that has not been asked for, and the initial tasks and reads come first, in
-- one go. In System/Flight a wait gives a read that is pending, once, and `main` issues its reads
-- one by one among the steps of the threads; that starts when all the initial tasks are added, since
-- no wait of a thread ends before the first read is issued. The reads that a step makes pending are
-- those that its code has given to `ReadFile`: Win32 has a history of these requests, and
-- ReadTask/Requests takes the difference of that after the step and that before it. A pending read
-- may be lost at any step, which is what becomes of a read that Windows refuses: `Read` returns as
-- if it had not. In EntryPoint `session` issues the initial tasks and reads in one go, and what the
-- threads do after that is part of the argument for the runner loop.
--
-- WorkerThread takes its completions in the order in which the waits give them, and
-- WaitForThreadsToFinish what each of its rounds finds: the contexts change between its rounds, not
-- within one.
--
-- Not modelled. The library `max` and its tests, a copy of another project's; the project files and
-- documents. The overlap of two runs of tasks, and with it a data race on a context or on the
-- counter.
pub mod Base
pub mod Words
pub mod Win32
pub mod Handles
pub mod Allocator
pub mod FileRead
pub mod TaskQueue
pub mod ReadTask
pub mod StateMachine
pub mod CommandLine
pub mod Cores
pub mod ThreadPool
pub mod EntryPoint
pub mod System
mod Tests
