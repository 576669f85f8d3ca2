-- ===== src/Lib.antt =====
-- Quantra System: an init system, a login manager and a network daemon, modelled from their Rust
-- sources.
--
-- The parts. `quantra` is the init process: it sorts the configured services into waves by what
-- each waits for (quantra/src/services/dependency.rs), after it has read and validated their
-- configurations (quantra/src/services/parser.rs and types.rs beside it), the manager starts them
-- wave after wave and stops them in reverse (quantra/src/services/manager.rs), a monitor restarts a
-- service that exits (`restart_monitor` of quantra/src/services/supervisor.rs), `stop` of that file
-- ends one, and its timers fire units on calendar schedules (quantra/src/services/timer.rs).
-- `quantra-logind` keeps sessions, seats, users and inhibitor locks in one manager each
-- (session.rs, seat.rs, user.rs and inhibitor.rs of quantra-logind/src); a login opens a session,
-- adds it to a seat and gives the session that seat's name. Its control socket
-- (quantra-logind/src/control.rs) serves each request over all managers and tells the subscribers,
-- and its power manager (quantra-logind/src/power.rs) shuts down and sleeps as the locks allow,
-- also on ACPI events and when all sessions are idle. `quantra-netd` acquires addresses with its
-- own DHCP client (quantra-net/quantra-netd/src/dhcp.rs) and its own DHCPv6 client (ipv6.rs beside
-- it), and resolves names over a cache (resolver.rs beside it). The initial ramdisk, in
-- quantra-ramfs/src, reads the kernel command line (cmdline.rs), sets up a verified root
-- (verity.rs), unseals the disk key in the TPM (tpm2.rs) and hands over to the init process
-- (switch.rs).
--
-- The files. Dependency.antt holds the start order: `wave_sort_services` and `sort_services` as the
-- source names them, the edge loops as `edges_of` and `edges_from`, the queue loops as `relax`,
-- `run_wave` and `run_rounds`. Manager.antt holds the manager, one function for each method, over
-- an interface `Supervision` of what it uses of a supervisor, and Manager/Catalog.antt the catalog.
-- Timer/Calendar.antt holds `CalendarSpec` with `parse` and `time_until_next`; Timer/Delay.antt
-- `apply_accuracy_jitter` and `should_catch_up`. Logind/Types has the records of
-- quantra-logind/src/types.rs, and Logind/Session, Logind/Seat, Logind/User and Logind/Inhibitor
-- the managers, one function for each method; Logind/Power.antt holds the power operations,
-- Logind/Power/Acpi and Logind/Power/Idle the two threads that start them.
-- Logind/Control/State.antt holds the state that requests share, Logind/Control/Requests.antt the
-- handlers that change several managers, and Logind/Control.antt `dispatch`; Logind/Control/History
-- starts the daemon as `run` of quantra-logind/src/main.rs does. Supervisor.antt holds the turn of
-- the monitor's loop as `round`, with `breaker`, `goes_on`, `chain_or` and `relaunch` for its
-- parts; Supervisor/Stop.antt holds `stop`, one function for each stage, and Supervisor/Health.antt
-- `healthcheck_thread`. Config.antt holds `validate_service`, Config/Files.antt the directory of
-- configurations, and Config/Memory.antt `parse_memory_limit`. Dhcp/Packet.antt holds the packet
-- builder, Dhcp/Reply.antt the reply parser, Dhcp/Handshake.antt the exchange with its receive
-- loops, Dhcp/Lease.antt the lease store, `dhcp_acquire`, `dhcp_renew` and `dhcp_release`; the
-- modules below Dhcp6 hold the same of the DHCPv6 client, with `do_dhcp6_handshake`,
-- `dhcp6_acquire`, `dhcp6_release` and the renewal task. Resolver/Message.antt holds `build_query`
-- and `parse_response`, Resolver/Cache.antt the cache, Resolver/Lookup.antt the resolver's methods.
-- Ramfs/Cmdline.antt holds the command line, Ramfs/Verity.antt the options of the verified root,
-- Ramfs/Tpm2.antt the exchange with the TPM, and Ramfs/Switch.antt the choice of the init process.
-- The modules below these hold the proofs and are named for what they prove; each Samples module
-- runs the definitions on small inputs. Base holds tests on numbers, lists, texts and association
-- lists.
--
-- The model. A manager's mutable map is an association list that each operation takes and returns;
-- an error is a value of the operation's own reply type. Numbers are natural numbers; where a
-- machine word's overflow matters, the mode of the build (checked or wrapping) is an argument. The
-- clock, the kernel's answers (opening a device, sending a message, applying a lease, what /proc
-- says of a process), how long a command runs that has no timeout, and what arrives on a socket are
-- arguments. The events on a socket are a list of datagrams, errors and expired waits; when it is
-- empty, waiting expires.
--
-- Bounds. The rounds of the start order run on fuel of one more than the number of services: each
-- round visits a service. The option loop of the reply parser runs on the length of the message,
-- since each turn reads a byte, and so do the loops of the DHCPv6 parser; padding on 300, the
-- length that it fills up to; the walk up the parents of a process on any fuel above a measure that
-- falls along it; the wait for delaying locks on one more than its milliseconds, since a round
-- takes 200 of them; the loops over a name's labels on the length of the message. The polling loops
-- of `stop` run on one more than the milliseconds of their wait, since a turn takes at least one,
-- and the wait for a killed process is twelve sleeps in the source.
--
-- Not modelled: log lines, threads, files (but for the reading of configurations) and cgroups, the
-- texts of error messages, and the other parts of the repository (SLAAC and routes, the rest of the
-- supervisor, the D-Bus bridge, the sandbox, the mounts of the initial ramdisk and the command line
-- tools).
pub mod Base
pub mod Dependency
pub mod Timer
pub mod Logind
pub mod Dhcp
pub mod Supervisor
pub mod Resolver
pub mod Manager
pub mod Dhcp6
pub mod Ramfs
pub mod Config
