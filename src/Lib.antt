-- ===== src/Lib.antt =====
-- The pot task driver for Nomad: it runs the tasks of Nomad jobs as FreeBSD jails by means of the
-- program `pot`.
--
-- Nomad calls the driver (driver/driver.go), which keeps a store of task handles (driver/state.go,
-- driver/handle.go). To start a task it prepares the command lines of the task's container
-- (driver/prepare.go) and runs them (driver/pot.go); goroutines wait for the container's end and
-- destroy it. A command that Nomad runs in a container with its streams goes through
-- driver/exec_utils.go and driver/pty_unix.go.
--
-- Modules and sources:
--   Text      Go strings as lists of code points; what is used of strings and strconv
--   Outcome   a value, an error or a panic; errors keep what they wrap, not their wording
--   Types     the structs of driver.go and pot.go, and what is read of Nomad's
--   Prepare   driver/prepare.go: Prepare.Container is prepareContainer, Prepare.Commands the rest,
--             Prepare.Shell how `sh` reads the commands
--   Machine   the operating system as a parameter, and code over a state
--   Pot       driver/pot.go: Pot.Run, Pot.Create and Pot.Query hold the methods of syexec
--   Store     driver/state.go
--   Handle    driver/handle.go
--   Exec      driver/exec_utils.go and driver/pty_unix.go: Exec.Result is cmdExitResult, Exec.Stream
--             the rounds of the three loops, Exec.Session the run around them
--   Driver    driver/driver.go: Driver.State the driver's state, Driver.Start StartTask,
--             Driver.Recover RecoverTask, Driver.Wait the goroutines, Driver.Tasks the other calls on
--             a task, Driver.Plugin the configuration and the fingerprint, Driver.Schema the
--             constants that Nomad asks for, Driver.Watch the loops of WaitTask and Fingerprint,
--             Driver.Stats that of TaskStats, Driver.Streaming ExecTaskStreamingRaw,
--             Driver.System the calls and the rounds of the goroutines as steps of one system
--   Examples  concrete tasks and hosts
--
-- What is not in the repository is a parameter. `Host` is the operating system: what a command does
-- may depend on all commands that were run before, and every command is logged. `Libs` holds the
-- functions of libraries: shellescape.Quote, methods of Nomad's TaskConfig and TaskHandle, the table
-- of signals, circbuf, and encoding/json into two structs. `Shell` is how `sh` reads a command as
-- words, with the rules of its manual: plain characters stand for themselves, a text that
-- shellescape.Quote has quoted is read as it was, a blank ends a word. `Peer` is the client of a
-- session, and the call-backs of an execHelper are their errors. A panic ends the process: the state
-- that stands beside it is the one at that moment.
--
-- A step of the system is a whole call or a whole round of a goroutine, from one place where it
-- waits to the next. The code takes no lock for as long, so the races within a step are left out.
--
-- A Go map is a list of entries in the order in which one `range` visits it. Handles are shared by
-- pointer: the driver's state holds them in a list, and a pointer is a place in it. A `syexec` is
-- copied as in the source. Logging is left out; so is invalid UTF-8. A pointer that the source never
-- tests and Nomad always sets (cfg, cfg.Resources) is taken to be set. The decimal digits of a number
-- take one more round of fuel than the number.
--
-- Not modelled: main.go, two lines that hand the driver to Nomad, and the channel of TaskEvents, which
-- Nomad's eventer makes.
pub mod Base
pub mod Text
pub mod Outcome
pub mod Types
pub mod Prepare
pub mod Machine
pub mod Pot
pub mod Store
pub mod Handle
pub mod Exec
pub mod Driver
mod Examples
