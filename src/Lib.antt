-- ===== src/Lib.antt =====
-- ReHLDS-m starts a Half-Life dedicated server: an executable loads the engine library, and this
-- program gives it a command line, a console with a line editor and a history, files, a log, and
-- the collections that the engine uses through interfaces. This library models the parts with logic
-- of their own and proves what makes them correct.
--
-- Which file models which part (paths from the root of the repository):
-- - CircularBuffer: libs/util/include/util/circular_buffer.hpp, Util::CircularBuffer<T, N>, with the
--   array, head_, tail_ and full_ as a record. Deque is its bounded sequence, Window the elements
--   between the indices, Inv the invariant, Refine and Runs the refinement, Reads what reading gives.
-- - File: libs/util/include/util/file.hpp and libs/util/src/util/file.cpp, reading, writing and
--   removing a file with error codes. A disk is a function from paths; what the stream does (opens,
--   tells a size, delivers bytes, goes bad, closes, translates the text that is written, as on
--   Windows) is an argument of each call.
-- - History: libs/model/include/model/userinput_history.hpp and
--   libs/model/src/model/userinput_history.cpp, Model::UserInputHistory over the buffer and the files.
-- - ObjectList: libs/common/include/common/object_list.hpp and
--   libs/common/src/common/object_list.cpp, Common::ObjectList with its iteration. Cursor is its
--   specification: the objects that were passed and those that are left.
-- - Presenter: libs/presenter/include/presenter/input_presenter.hpp, Presenter::InputPresenter, which
--   the console calls and which holds the history and the queue of the server loop; Matches has its
--   search for commands, a task of that loop.
-- - Console: libs/view/include/view/console_input.hpp and libs/view/src/view/console_input.cpp,
--   View::ConsoleInput, each key's handler with the bytes that it prints. Complete has the helpers
--   for matching commands, Complete.Width the console.cpp of libs/util/src/util/linux and
--   libs/util/src/util/windows, Keys the reading of keys of libs/view/src/view/linux/console_input.cpp,
--   Windows that of libs/view/src/view/windows/console_input.cpp.
--   Terminal is an independent model of what a terminal does with printed bytes; Display, Splice,
--   Editing and Recall compare the two key by key, Session and Shown for every session.
-- - CmdLine: libs/core/include/core/cmdline_args.hpp and libs/core/src/core/cmdline_args.cpp,
--   Core::CmdLineArgs, the text of the arguments; Push has what is read of an argument that was
--   added, Index the search among those of main.
-- - Lifecycle: libs/util/src/util/lifecycle.cpp, Util::at_exit.
-- - ThreadSafeQueue: libs/util/include/util/threadsafe_queue.hpp, Util::ThreadSafeQueue, a step for each
--   call; the threads that sleep in pop are part of the state.
-- - Convert: convert_to_type<int> and convert_to_type<std::size_t> of libs/util/include/util/string.hpp.
-- - CmdLineProcessor: libs/core/src/core/cmdline_processor.cpp, Core::CmdLineProcessor, the handlers
--   of single options over the arguments, the files and the signal settings.
-- - Logger: libs/util/include/util/logger.hpp and libs/util/src/util/logger.cpp, the settings and the
--   sinks of the log and the text of a message; the print of libs/core/src/core/exports.cpp.
-- - ConsoleView: console_view.hpp of libs/view/include/view/linux and libs/view/include/view/windows,
--   and libs/view/src/view/windows/console_view.cpp, View::ConsoleView. Printed has what the engine
--   prints on its way through the log to the console, Display the status in the window of Windows.
-- - Init: libs/core/src/core/init.cpp, how the arguments choose the log file and the loop of the
--   server, the locale, and the first steps of apps/hlds/src/hlds/hlds.main.cpp. Modules has the
--   start of the crash dumper on Windows, the sockets, the loading of the file system and of the engine, and the exit, over ModuleWrapper and
--   Lifecycle, and Modules.Engine what run_server_loop gets of the engine, with
--   libs/common/include/common/engine/engine_wrapper.hpp.
-- - Hlds: run_server_loop of apps/hlds/src/hlds/hlds.main.cpp, which makes the loop, the presenters and
--   the console and joins them by the queue of inputs; Entered follows the keys up to the engine.
-- - ServerLoop: libs/model/include/model/server_loop.hpp, libs/model/src/model/server_loop.cpp and the
--   server_loop.cpp of libs/model/src/model/linux and libs/model/src/model/windows, Model::ServerLoop.
--   A step is one of the loop's thread, where the test of a queue and its pop are two, or one of a
--   thread that enqueues. Pacing has the loop at a target frame rate over a record Double for the
--   floating point numbers, Clock the test whether to update the status, Timer the wait for a signal
--   of the first level of -pingboost, and Sleep the whole run with what each function that sleeps
--   asks for, and libs/util/src/util/windows/system/ntdll.cpp.
-- - ConsoleCommands: libs/model/src/model/console_commands.cpp, Model::ConsoleCommands, what the
--   engine finds for a text, on an ObjectList; Completion composes it with the tab key of the console.
-- - Observable: libs/util/include/util/observable.hpp, Util::Observable, which the server loop is.
-- - Singleton: libs/util/include/util/singleton.hpp, Util::SingletonHolder with its policies.
-- - Interface: libs/common/src/common/interface.cpp, the registry of interfaces and CreateInterface;
--   Expose has the macros of libs/common/include/common/interface.hpp with the objects that they make.
-- - ModuleWrapper: libs/common/include/common/module_wrapper.hpp and
--   libs/common/src/common/module_wrapper.cpp, Common::ModuleWrapper with its cache of interfaces.
-- - SysModule: the module.hpp files of libs/util/include/util/linux/system and
--   libs/util/include/util/windows/system, and libs/util/src/util/system.cpp, the calls of the loader;
--   a wrapper with what it opens and closes.
-- - CrashDumper: libs/util/src/util/windows/system/crash_dumper.cpp, Util::CrashDumper.
-- - OutputPresenter: libs/presenter/include/presenter/output_presenter.hpp, Presenter::OutputPresenter,
--   a listener of the server loop; Throttle has the rate of its updates.
-- - Signal: libs/util/include/util/linux/signal.hpp and libs/util/src/util/linux/signal.cpp, the sets
--   of signals and Util::ScopedSignalBlocker. Scope has the documented behaviour of the system's
--   functions, Example a system that satisfies it.
-- - TerminalSettings and TtyRedirect: libs/view/include/view/linux/terminal_settings.hpp and
--   libs/view/include/view/linux/tty_redirect.hpp, View::ScopedTerminalSettings and ScopedTtyRedirect.
-- - Stringpy: the third-party library of string functions, as parameters; the records LineLaws,
--   TrimLaws and Console.Session.PlainLaws state the documented behaviour that is relied on, and Example has
--   concrete functions that satisfy LineLaws and TrimLaws.
-- - Base: lists, texts and tests on the native numbers.
--
-- Numbers are natural: sizes and indices here stay far below 2 ^ 32, the indices of the buffer below
-- its capacity; where the source subtracts, the model writes the guard that the source has. An int
-- that is read from a text is an integer within the 32 bits of Convert. Durations are integers of
-- nanoseconds (Base.Int); a target frame rate is bounded where a theorem needs it.
--
-- Fuel: `handle_end` runs for the places up to the end of the line, `read_keys` for the bytes that
-- are read, `remove` for the length of the text, since every round takes a byte away, and
-- `run_stack` for the number of the callbacks, of which there are at most five for `exit`.
-- `build_arguments_string` counts the depth of files that name files, for which no bound exists.
--
-- Not modelled: spdlog, fmt and stringpy, which are parameters; the system calls, whose results are
-- parameters, and so are the answers of the loader and of the engine, what the clocks tell, and the
-- floating point numbers; the memory of the engine's objects; the declarations of the engine's
-- interfaces, which hold no code. An input with a null character is given whole to the engine, which
-- would read it up to there; the padding of a printed command counts its bytes.
pub mod Base
pub mod CircularBuffer
pub mod Stringpy
pub mod Convert
pub mod CmdLine
pub mod CmdLineProcessor
pub mod Lifecycle
pub mod Interface
pub mod ModuleWrapper
pub mod SysModule
pub mod Singleton
pub mod ThreadSafeQueue
pub mod File
pub mod History
pub mod ObjectList
pub mod Presenter
pub mod Console
pub mod Observable
pub mod ServerLoop
pub mod Hlds
pub mod OutputPresenter
pub mod Logger
pub mod Init
pub mod ConsoleCommands
pub mod Signal
pub mod TerminalSettings
pub mod TtyRedirect
pub mod ConsoleView
pub mod CrashDumper
