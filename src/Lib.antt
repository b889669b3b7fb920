-- ===== src/Lib.antt =====
-- EDF scheduling on top of Xenomai: a model of the edfomai driver module, its library
-- and its example programs, with their theorems.
--
-- The program. A kernel module (edfomai-drv.c, edfomai-drv-data.c) keeps a table of the tasks that have
-- deadlines, one RT_DTASK for each, found by the task's name through uthash. A program sends EDFMessages
-- (edfomai-data.h) to the device; the write handler dispatches them, under a lock, to the operations on
-- the table. After most operations, and when its service is woken by a hook, the module recalculates
-- the priorities of all tasks from the time left to their deadlines. A program uses the device through a
-- library (edfomai-app.c). The programs of exercise-edfomai stand on that library, and those of
-- exercise-xenomai on Xenomai alone; their tasks share variables and semaphores.
--
-- The files.
--   Message     edfomai-data.h: commands, EDFMessage and DEADLINENOTSET, which is 2^64 - 1.
--   Prio        div64_64 and _calculate_prio of edfomai-drv-data.c. An int is its 32-bit pattern and a
--               uint64_t wraps modulo 2^64. Its children: Divide (how exact the division is), Order
--               (the order of the priorities), Overflow (what a wrapped product does).
--   Platform    the interfaces of what is not in the repository: the kernel's State with Xenomai's
--               calls as functions of it, uthash as a table with a list of items, and fls and do_div.
--               Their laws are the documented behaviour that the code relies on. datastructures/ is a
--               copy of the uthash headers, and is such an interface too.
--   World       the state of the module: dtask_map, the RT_DEADLINE_TASK blocks by address
--               (edfomai-drv-data.h), the addresses in use, and the kernel. A command takes a World and
--               returns a result and a World, or faults: at an access through NULL, at a block freed
--               twice, at a write past the end of an array.
--   Notify      deadline_missed of edfomai-drv.c. The 24 characters of its array are copied in 24
--               rounds, which is the bound of the source's loop.
--   Recalc      rt_dtask_recalculateprio of edfomai-drv-data.c, both loops. Its children describe them
--               as changes of all entries (Scan, Assign), join them to one round (Refine), and say what
--               priorities (Edf) and what calls (Calls) a round makes.
--   Dtask       the other operations of edfomai-drv-data.c. Its children: Valid (the invariant of the
--               table), Keep (changes that keep it), Entry (the lookup that most operations start
--               with), and one child for the results of a group of operations.
--   Driver      edfomai-drv.c: the lock, _get_handle, the write handler, the hooks, and one turn of
--               the service's endless loop. Its children: Load (edf_rtdm_init and edf_rtdm_exit),
--               Served (the operations as the driver uses them), Dispatch and Write (the write
--               handler), Register (the creation of a task by a request), Pause (a STOP_WATCHD
--               request), Undo (a creation and its deletion), Run (runs of requests, hooks and turns,
--               each as one step), Race (the passes of HASH_ITER with the delete hook, which takes no
--               lock, between them) and Schedule (the kernel's priorities after a turn of the service,
--               and in Requests after a request that starts a deadline anew).
--   App         edfomai-app.c, the library for programs: Device (edf_init, edf_dispose), Task
--               (edf_task_start, edf_task_wait_period) and Leak (the descriptors, when several tasks of a
--               process use the library). The skin's calls are an interface of its own.
--   System      App on Driver: a write to the device is a call of the write handler, so that what a program
--               starts is followed to the table. The process and RTDM in between are an interface. Its
--               children: Enrolled (tasks started one after the other), RoverStarted (those of
--               mars_rover.c) and Waited (a task that ends its period).
--   Launch      how a program starts its tasks on App, with an interface for what main programs call
--               beside it, and a log of the messages to the device, by which theorems say what they send;
--               Wait has what a task sends in a period.
--   Example     exercise-edfomai/example1.c: main() and the rounds of its task.
--   Trial       sporadic_test.c and periodic_test.c: their common main program (Creations, Leaks), and their
--               tasks (Sporadic, Periodic, Work). What the tasks do while main() waits for them is an
--               argument of it.
--   Tasks       tasks that interleave: semaphores, runs, reached states, and a measure of runs. The system
--               may take the steps of its tasks in any order, so that no theorem rests on
--               priorities, except in Exercise.Prompt and Exercise.Semaphore.Main, whose programs need
--               them.
--   Rover       exercise-edfomai/mars_rover.c: its four tasks as interleaved steps, with its lock
--               (Holders, Exclusion) and the ends of their periods (Rounds, with Stretches for each
--               task); its main program on App (Main), and what that sends (Creations).
--   Exercise    the programs of exercise-xenomai, as interleaved steps: Semaphore (semaphore.c), Bottler
--               (bottler.c), Multitask (multitask.c), Periods (multitask.c.d.c), Shared
--               (multitask.c.c.c), Prompt (multitask.c.b.c, with its Order and its Ends), Names
--               (multitask.c.a.c) and Hello (test.c and test_b.c).
--   Tests       a simulated platform, runs, and the theorems at concrete inputs.
--
-- A TaskState and a DeadlineState are ints, since the code stores another enumeration's value in one of
-- them, and so is a command, which comes from the user. Loops run over the items of the table, so no
-- fuel is needed there. The rounds of example1.c's endless loop are counted by an argument, for any
-- number. The working loop of the two tests, whose counter grows by WAIT_SESSION, has fuel for one pass
-- more than NWAIT_SESSION, which is enough (Trial.Work).
--
-- Not modelled: the prints that only report, the excerpts for slides, the programs in SFC, which do
-- not compile (`startup` starts functions that do not exist, and a local variable hides the table of
-- steps), and the copy of uthash. Two processors inside the driver at once are modelled only where
-- Driver.Race says so; elsewhere edf_delete_hook is a step like the others.
pub mod Base
pub mod Message
pub mod Prio
pub mod Platform
pub mod World
pub mod Notify
pub mod Recalc
pub mod Dtask
pub mod Driver
pub mod App
pub mod System
pub mod Launch
pub mod Example
pub mod Trial
pub mod Tasks
pub mod Rover
pub mod Exercise
pub mod Tests
