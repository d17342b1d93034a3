-- ===== src/Lib.antt =====
-- Kyua runs test suites. This library models the parts of it that decide: which test cases run, what
-- a test case's result is, and the texts, paths and times that these parts rest on.
--
-- The parts, in the order in which a run uses them:
--
-- Text (utils/text/operations.cpp and operations.ipp) splits, joins, quotes, escapes and reads
-- texts, which are lists of bytes; Text.Refill fills lines. FsPath (utils/fs/path.cpp) is the class
-- path on top of it: a text in normal form, with its branch, leaf, parents and joins.
--
-- Filters (engine/filters.cpp) is the classes test_filter, test_filters and filters_state. A filter
-- is a path and a test case, which is empty where the filter names none. A std::set of filters is a
-- list in the order of operator<. Scanner (engine/scanner.cpp) asks the filters which of the pending
-- test programs and test cases to return. Its methods advance, consume, yield and done take the
-- state of struct impl and return it; yield is yield_next here.
--
-- Status (utils/process/status.cpp) is how a process ended; TestResult (model/test_result.cpp) is
-- what the user sees. AtfResult (engine/atf_result.cpp) parses the results file of an ATF test
-- program and weighs it against the end of the process: parsing is in AtfResult, the rest in
-- AtfResult.Apply, comparison and printing in AtfResult.Show. AtfResult.Printed writes the format of
-- that file down. GoogletestResult (engine/googletest_result.cpp) does the same for Google Test, in
-- the same parts.
--
-- Tap (engine/tap_parser.cpp) parses the output of a TAP test program; Tap.Judge is compute_result
-- of engine/tap.cpp, and that of engine/plain.cpp.
--
-- Config (utils/config/keys.cpp, nodes.cpp and nodes.ipp) is the keys and the leaves of
-- configuration trees, with one constructor for each class of nodes.hpp and of model/metadata.cpp;
-- Config.Tree is the inner nodes and the class tree (tree.cpp, tree.ipp). One flag of an inner node
-- stands for its class and its _dynamic: a static node that a combination made dynamic is a dynamic
-- one of the model, and define, which asks for the class, is not followed on such a node. set_at is
-- what tree::set_string and tree::set do with the leaf that lookup_rw finds or makes, and the
-- references it returns are changes of that leaf. Config.Combine is the copies of trees and combine,
-- which makes of a base tree and its overrides a new tree. Config.Properties is all_properties and
-- the comparison. Config.LeafTypes describes the classes of leaves by a LeafType, the argument of
-- the templates of tree.ipp. Requirements (engine/requirements.cpp) asks such a tree, and the
-- system, whether a test case can run.
--
-- ModelMetadata (model/metadata.cpp) is the metadata of a test, a configuration tree with defaults:
-- its getters are the template get at a key and a class of leaves. The setters are in
-- ModelMetadata.Builder, where build gives the tree away; the sharing of the tree between a builder
-- and what it built is not modelled. TestCase (model/test_case.cpp) is a test case with the metadata
-- of its test program as defaults. AtfList (engine/atf_list.cpp) and GoogletestList
-- (engine/googletest_list.cpp) parse the lists of test cases of a test program into a map of
-- metadata by name. Units (utils/units.cpp) is the quantities of bytes that metadata hold.
--
-- Timers (utils/signals/timer.cpp) is the class global_state: all_timers is the map of timestamps to
-- sets of timers, a timer is named by its address, a timestamp is a number of microseconds, and the
-- delays given to setitimer are kept as a list. Timers.Object is the class timer and the handler of
-- SIGALRM over all timers of the program; the readings of the clock are arguments. Timers.Reached
-- has the calls and the signals as events, in any order; a signal does not come in the middle of a
-- call, which the inhibiter of interrupts sees to. The destructor of global_state, which gives the
-- timer back to the system, only forgets the state.
--
-- Formatter (utils/format/formatter.cpp) is the class formatter: put_argument is operator%, with
-- what the stream writes for the argument given by a function of the settings of the stream. A
-- formatter is used for one argument, since operator% writes to its stream. Templates
-- (utils/text/templates.cpp) is the class templates_def and the expressions, and Templates.Parser
-- the class templates_parser over the lines of the input that end in a newline, with the rest of the
-- lines as the position of a stream. Table (utils/text/table.cpp) is the classes table and
-- table_formatter; a row is padded or refilled column by column, and memory is taken to be enough
-- for the padding.
--
-- Delta and Timestamp (utils/datetime.cpp) are the spans and points of time of those results.
--
-- Prelude holds what the parts share: Boolean tests and lists over the native numbers, bytes with
-- find and substr (Prelude.Bytes), the search of a text (Prelude.Search), the integers and their
-- decimal text (Prelude.Integer), and results that throw (Prelude.Results). Examples applies the
-- theorems at concrete inputs.
--
-- Exceptions are the err of a Result. A failed precondition or invariant, which aborts, is an error
-- of its own or none. Positions are ℕ, std::string::npos is none, and an int is checked for 32 bits.
-- A char is signed, as on the platforms of the code; an int64_t wraps around at 2 ^ 64. The errors
-- that parsing a filter throws are constructors and not texts, as only their kind is used.
--
-- Fuel: the position loops of quote, split and normalize take as many rounds as the text is long, or
-- one more, and each round moves the position on. is_parent_of takes one round more than the path
-- has bytes, and each branch is shorter. advance takes the rounds that are left, which are two for
-- each pending program and one for each of its test cases, and Scanner.Rounds counts them down. The
-- loops of the formatter and of refill take as many rounds as the text is long, or one more. The
-- parser of templates takes one for each line it reads: a template without loops reads each of its
-- lines once, and out of fuel is a result of its own. The combination of trees takes the levels of
-- the base, and goes down one level a round. The loop of the parser of ATF lists takes one more than
-- the lines that are left, of which each round reads one.
--
-- Parameters of the model: the macros of wait(2) (WaitMacros) and the searches of std::regex
-- (Patterns, TapPatterns, ListPatterns); the system's answers to the requirements, of which the
-- functions of utils wrap the calls, and the text of a size, which is made with floating-point
-- numbers (System); the registered checkers; the answers of setitimer and sigaction (Timers.System);
-- the conversions of floating-point numbers (Floats). Files are given by their contents, or none if
-- they cannot be opened; the current directory and the lists of test cases are arguments.
--
-- Not modelled: timestamp::now, from_values and strftime, which call the C library; replace_all of
-- the text operations; the Lua values of configurations; the printing of metadata and of test cases;
-- logging; the scheduler, the store, the command line and the calls of the system.
pub mod AtfList
pub mod AtfResult
pub mod Config
pub mod Delta
pub mod Examples
pub mod Filters
pub mod Formatter
pub mod FsPath
pub mod GoogletestList
pub mod GoogletestResult
pub mod ModelMetadata
pub mod Prelude
pub mod Requirements
pub mod Scanner
pub mod Status
pub mod Table
pub mod Tap
pub mod Templates
pub mod TestCase
pub mod TestResult
pub mod Text
pub mod Timers
pub mod Timestamp
pub mod Units
