-- ===== src/Lib.antt =====
-- TriHaRd, a trusted time service of SGX enclaves: the C++ code under trihard/.
--
-- A node (trihard/node/Enclave) keeps a clock: a reference timestamp `ts_ref` at the counter value
-- `tsc_ref`, and the frequency `tsc_freq` of the counter in cycles per nanosecond. A monitoring
-- thread counts loop rounds between two counter values. An exit of the enclave (AEX) taints the node:
-- its handler runs, and no time is served until the siblings, which are nodes at other addresses, have
-- answered a tainted message and a quorum untaints the node. A time authority
-- (trihard/time_authority) answers drift messages; its answers drive a state machine after NTP, which
-- trains the frequency (FREQ), disciplines the clock (SYNC) and waits out spikes (SPIK).
--
-- Files:
--   Base       Names of the libraries passed on, Boolean tests, lists, signed integers (Base/Int).
--   Double     The type `double` as a parameter, with an exact instance for tests (Double/Exact).
--   Timespec   node/Enclave/timespec.h. A function for each operator: `lt` is `<`, `add` is `+` of
--              two values, `add_nsec` is `+` with nanoseconds; Timespec/Scale has those on doubles.
--   Wire       The plaintext of the datagrams of node/Enclave/ENode.cpp, as bytes.
--   Node       node/Enclave/ENode.h, and in child modules node/Enclave/ENode.cpp:
--     Clock    get_timestamp, shadow_tsc_update, step_clock, discipline_clock.
--     Ntp      select_clock, send_recv_drift_message, ntp, and `case 'D'` of handle_message
--              (`accept_drift`).
--     Peers    add_sibling, and `case 'S'` (`accept_sibling`).
--     Join     add_sibling with its use of the socket (`join`).
--     Taint    aex_handler, sendTaintedMessages, `case 'T'` (`accept_tainted`) and `case 'U'`
--              (`accept_untainting`) with its quorum (`has_quorum`).
--     Messages handle_message; Messages/Cases has the case split that proofs about it use.
--     Cipher   incrementNonce, encrypt, decrypt, test_encdec, with the AEAD of libsodium as a parameter.
--     Socket   setup_socket and sendMessage, with the calls on the lock of the socket.
--     Receive  loop_recvfrom.
--     Tasks    The constructor, untaint_trigger, refresh, stop_tasks, poll_timestamp. Tasks/Delivery has
--              hosts from their creation on (`Lives`).
--     Steps    The operations of all threads in any order (`Step`), and the states that follow the
--              constructor (`Reachable`); Steps/Replays has sequences of them (`Steps`), which
--              Steps/Simulation compares for two orders of the siblings; Steps/SelfTainting has runs with
--              the monitoring rounds of the build with AEX-Notify counted (`Rounds`).
--     Monitor  monitor_rdtsc in the build with AEX-Notify (`monitor_rdtsc`) and in the one without
--              (`monitor_polling`), and over either (`monitor_in`) calibrate, calibrate_count, and a
--              round of monitor.
--   Network    Nodes at their addresses with the datagrams between them (`Moves`, `Runs`): the threads of
--              node/App/Node.cpp on several hosts.
--   Udp        sgx_socket: the wrappers of the sockets (`u_sendto`, `u_recvfrom`, `recvfrom`,
--              `setsockopt`) and the addresses that they pass.
--   Affinity   node/App/Node.cpp, AEXTest/App/App.cpp: set_thread_affinity and set_affinity.
--   Authority  time_authority/server.cpp: handleMsg. Authority/Server has main and its threads, which
--              share the receive buffer; Authority/Training has a node and the authority together.
--   Manager    node/Enclave/ecalls.cpp: the nodes of an enclave by port, and the ecalls.
--   Launcher   node/App/Node.cpp: get_instance, destroy_instance, and the threads of a node.
--              Launcher/Polling has the loops that poll a node and print its time.
--   User       user/main.cpp: the arguments (`parse`) and the calls of the node (`run`). User/Process
--              puts them together with Launcher (`perform_all`).
--   AexTest    AEXTest/Enclave/Enclave.cpp: main_thread and the handlers as a step machine (`step`),
--              the logs (AexTest/Log); AexTest/App has AEXTest/App/App.cpp.
--   Errors     print_error_message of node/App/Node.cpp and AEXTest/App/App.cpp, with their tables.
--   Tracing    node/App/ocalls.cpp: the lines of the log (`timespec_print`, `timespec_cycles_print`).
--   TscOffsetter  AEXTest/tsc_offsetter/tsc_offsetter.cpp: main and its accesses to the registers of the cores.
--   Examples   Concrete nodes and messages.
--
-- The state is the record `ENode`: the fields of the class and the function-local statics. Each
-- operation returns the new state. What comes from outside is an argument: the OS clock, the readings
-- of the counter, the exits that a counting round meets, the bytes of locals that are sent without
-- being written. Each operation is one step, so the locks of the state are left out; the calls on the
-- lock of the socket are kept as a list. A thread that waits is given the states that it finds. A
-- printed state is an entry of `trace`; other output is left out.
--
-- Integers are unbounded: no field of the source comes near 2 ^ 63, and theorems on encoding state the
-- range. Loops over the counter recur on the list of its readings and return `none` when the list
-- ends before the loop does. The loop over the arguments of user/main.cpp recurs on their number,
-- which is shown to be enough. The two loops of `standardize` recur on a number of rounds, one more than
-- the nanosecond field has billions, which is shown to be enough. A printed `long` is cut into 19 digits,
-- as many as it has at most.
--
-- The hypotheses on code that is not in the repository are named: `Signs` and `Halves` on doubles, which
-- follow IEEE 754, `Opens` on the AEAD, `Converts` on the C library's texts of addresses, that a
-- failed decryption gives an output of length 0, and that the OS binds no thread to an empty set of
-- cores. The constants of SGX (`code`) and the texts of a date (`date`) and of an error (`strerror`) are
-- arguments without a hypothesis.
--
-- Not modelled: libsodium and the SGX libraries, other logging, the wrappers of sgx_socket that only
-- forward their arguments, and the scripts. The steps of two threads are not interleaved within an
-- operation.
pub mod Base
pub mod Double
pub mod Timespec
pub mod Wire
pub mod Node
pub mod Authority
pub mod Manager
pub mod Launcher
pub mod Network
pub mod Udp
pub mod Affinity
pub mod Errors
pub mod Tracing
pub mod TscOffsetter
pub mod User
pub mod AexTest
pub mod Examples
