-- ===== src/Lib.antt =====
-- NATMap opens a port on the public address of a NAT. It holds a mapping open by a long TCP
-- connection to an HTTP server, or by UDP packets, learns the public address and port of the mapping
-- from a STUN server, tells a script of each change, and in forward mode passes on what arrives.
--
-- The parts and how they interact. A keeper (TCP or UDP) opens a socket with a port of the
-- configuration, runs the STUN client on the same local address, and holds the mapping until it is
-- lost or killed; then it begins again, with the next port where the socket failed. The STUN client
-- sends one request, looks in the response for the mapped address, compares it with the last one,
-- stores the public port and runs the script. The forwarders listen on the local address of the
-- mapping.
--
-- Which file models which part:
--   Conf     src/hev-conf.c: `apply_option` is the switch of `hev_conf_init`, `parse_options` its
--            loop, `check_conf` the rest; `Conf.Bport` has `hev_conf_bport`, `hev_conf_mport`, and
--            `Conf.Getters` the functions that read it; `Conf.CommandLine` is `hev_conf_init` on the
--            words of a command line, with the `getopt` of src/hev-compat.c
--   Text     the parts of libc that read and print texts: strtoul, snprintf, sscanf for the server of
--            a command line, and in Text.Scan for a row of a table of sockets
--   Host     what the program calls of libc, the kernel and hev-task-system: any answers, as
--            functions of the calls before, and a trace of the calls; `Host.Held` says which
--            descriptors, registrations and address lists a trace leaves held
--   Sock     src/hev-sock.c, function by function, for Linux
--   Stun     src/hev-stun.c: Message (`stun_pack`, byte order, memory), Wire (what a server sends),
--            Unpack (`stun_unpack`), Compare (`cmp_addr`), Exchange (`stun_tcp`, `stun_udp`),
--            Client (`stun_bind`), Task (`task_entry`)
--   Keeper   what src/hev-tnsk.c and src/hev-unsk.c share: `port_next` and the loop of `task_entry`
--   Forwarder  the life of the server of src/hev-ufwd.c (src/hev-tfwd.c's is alike) as steps of tasks
--            in turn: `hev_ufwd_run`, `hev_ufwd_kill`, start, rounds and end of `server_task_entry`
--   Life     the tasks together: the keeper (src/hev-tnsk.c or src/hev-unsk.c), the STUN client's tasks
--            and the forwarder's server as steps in turn, with `hev_stun_run`, the two `stun_handler`,
--            `tnsk_kill`, `unsk_kill`, `hev_tfwd_run` and `hev_tfwd_kill`
--   Waits    `hev_io_yielder` of src/hev-misc.c; `connect_io_yielder`, `sock_connect` of src/hev-sock.c
--   Compat   src/hev-compat.c: `getopt`, and the loop of `hev_conf_init` that calls it; Compat.Grammar
--            says independently which options the words of a command line hold
--   Main     src/hev-main.c and src/hev-xnsk.c, with `hev_tnsk_run`, `hev_unsk_run`, `hev_run_daemon`
--   Misc     src/hev-misc.c: `get_inode`, `get_pid_fd`, `set_reuse_port`, `hev_reuse_port`, over a
--            system that answers each call, with a trace of what is opened and closed
--   Tnsk     src/hev-tnsk.c: `tnsk_keep_alive`, and in Tnsk.Task `tnsk_run`, `task_entry`
--   Unsk     src/hev-unsk.c: `unsk_keep_alive`, and in Unsk.Task `unsk_run`, `task_entry`
--   Tfwd     src/hev-tfwd.c: `client_task_entry`, `server_task_entry`; `hev_tcp_cca` of hev-misc.c
--   Exec     src/hev-exec.c: the arguments of the script, `hev_exec_run`; Exec.Spawn is
--            `hev_exec_spawn` for Windows
--   Ufwd     src/hev-ufwd.c: the session tree (`session_find`, `session_add`, `session_del`), and in
--            Ufwd.Server `session_new` and one round of the server, in Ufwd.Client `client_task_entry`;
--            Ufwd.System has both in turn over one tree of sessions
--   Prelude  numbers, integers, lists and exclusive or
--
-- Conventions. Numbers are natural numbers; what a C type cuts off is written as `% 2 ^ w`, and an
-- `int` is an integer with `int_of` where a value is stored. A byte order is an argument of whatever
-- reads or writes words in memory, with 32-bit `unsigned int` and 64-bit `unsigned long`. Texts are
-- lists of character codes without the final zero. The values that `rand` returns, the contents of
-- an uninitialised variable and the old contents of a buffer are arguments.
--
-- Bounds and fuel. The loop of `stun_unpack` has fuel `len + 1`: each round moves by at least five
-- bytes; a load beyond the buffer is a fault, and neither end is met (see `stun_unpack-Returns`).
-- The loop of `stun_udp` counts its tries down. The keepers' loops run over the list of what the
-- connection answers, that of the STUN client's task over the list of the calls it is woken for,
-- those of the keepers' tasks over the list of the runs they get to make, that of the TCP forwarder
-- over what `accept` returns; a run that still waits when its list ends is marked as such.
-- The loop over `getopt` has as much fuel as the options have characters, and one more (see
-- `options-some`), and so has the reference in Compat.Grammar. The loops of Misc run over the lines
-- of a file and the entries of a directory. A step relation (Forwarder, Life, Ufwd.System) has no
-- bound: its runs are of any length.
--
-- Not modelled: the task system, red-black tree and allocator (hev-task-system, a submodule), whose
-- calls are answered by the host (a timeout as -2); logging and the help text, which only print; the
-- variants of the socket calls and of src/hev-misc.c for other systems than Linux.
-- The rebalancing of the session tree is the library's. The row format's `%lX` and `%d` are read as
-- unsigned numbers; those that the code looks at are cut to an `int` as it does.
pub mod Prelude
pub mod Host
pub mod Text
pub mod Conf
pub mod Sock
pub mod Stun
pub mod Keeper
pub mod Tnsk
pub mod Unsk
pub mod Exec
pub mod Tfwd
pub mod Ufwd
pub mod Forwarder
pub mod Misc
pub mod Compat
pub mod Life
pub mod Main
pub mod Waits
