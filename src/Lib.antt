-- ===== src/Lib.antt =====
-- The rMPTCP scheduler: a packet scheduler for the MPTCP kernel that sends each segment over
-- several subflows at once, over as many as the user's quota asks for, and that finds failing
-- subflows.
--
-- How the program works. `rmptcp_send_next_segment` (rmptcp/net/mptcp/rmptcp.c) is called with a
-- segment. It keeps one global register, `red_sk_reg`, with a sorted array of the known subflows.
-- Once in an update period it takes over the user's settings, adds new subflows, measures the
-- bandwidth and chooses the main subflows. On each call it adapts the quota, asks which subflows
-- can take the segment, and decides whether to send now or to wait for more of them. When it
-- sends, it measures the send period, drives the state machine of the failure detection, and
-- hands the segment to each available subflow. With the path check on
-- (rmptcp/net/mptcp/rmptcp_pathcheck.c) it tries out each combination of subflows that uses no
-- address twice. On the receiving side the lowpass (rmptcp/net/mptcp/mptcp_input.c) holds a segment
-- back until its data sequence number has come on another subflow too, or no longer than the mean
-- time between new segments, which it learns.
--
-- A connection can use other schedulers of the kernel: the default one, which takes the available
-- subflow with the least round trip time, the round robin one, which sends bursts of segments on one
-- subflow after the other, and the redundant one, which sends each segment on every subflow. The
-- kernel keeps them in a list, and a new connection takes the first one in it. What the two ends of a
-- connection tell each other stands in TCP options, which rmptcp/net/mptcp/mptcp_output.c writes and
-- rmptcp/net/mptcp/mptcp_input.c reads.
--
-- Which file models which part:
--  Register      rmptcp/include/net/rmptcp.h: the structs, enums and sysctl variables
--  Availability  rmptcp_is_available of rmptcp.c, mptcp_sk_can_send of rmptcp/include/net/mptcp.h
--  SkList        rmptcp_insert_sk, rmptcp_set_enable_flag, rmptcp_update_sk_list
--  Main          rmptcp_set_all_main, rmptcp_set_all_uncong_main, rmptcp_update_main_sk
--  Bandwidth     rmptcp_update_bw
--  Quota         rmptcp_regulateQ, rmptcp_setQ, rmptcp_adaptR, rmptcp_setQActual,
--                rmptcp_calc_controlQ
--  Failure       rmptcp_check_failure, rmptcp_statechange_cong and its two callers
--  AdaptPath     rmptcp_adaptPath
--  Check         rmptcp_check_avail_sk
--  SendPeriod    rmptcp_calc_sendPeriod
--  Send          rmptcp_send_skb
--  Settings      rmptcp_update_sysctl, rmptcp_reset_meta
--  PathCheck     getAddresses, getPathCombinations, getMeasurements, pathChecker
--  Scheduler     rmptcp_send_next_segment
--  Lowpass       rmptcp_add_to_sk_queue, rmptcp_get_from_sk_queue, rmptcp_peak_dsn_sk_queue,
--                rmptcp_calc_lowpass_timeout and rmptcp_lowpass of mptcp_input.c
--  RoundRobin    rmptcp/net/mptcp/mptcp_rr.c, the upstream round robin scheduler: the choice of a
--                subflow for a reinjection and the next segment
--  Options       mptcp_options_write of mptcp_output.c with the functions that it calls,
--                tcp_parse_mptcp_options and mptcp_parse_options of mptcp_input.c, and the numbers
--                of the options in rmptcp/include/net/mptcp.h
--  Default       rmptcp/net/mptcp/mptcp_sched.c, the default scheduler
--  Redundant     rmptcp/net/mptcp/mptcp_redundant.c, the redundant scheduler of the kernel
--  Registry      the list of schedulers in mptcp_sched.c, whose code
--                rmptcp/net/mptcp/mptcp_pm.c repeats for path managers
--  Offers        what the transmission sees of a list of subflows
--  Keeps         what a step leaves alone in the register; each Frame is about one component
--  Validity      the invariant of the scheduler's state, and Scheduler/Reach the states that calls
--                lead to
--  Prelude       the numbers of C, arrays as lists, and the names of the libraries
--  Tests         runs and the theorems at concrete inputs
--
-- State. `Register` is `red_sk_reg`: a field is named after the C field, and each function that
-- changes the register takes one and returns the new one. The array `sk_list` is two lists, the
-- `sk_list_size` entries in use and the `spare` slots behind them, so that what a removed entry
-- leaves behind is in the model and a write behind the last slot is a fault, the result `none`.
-- `Settings` is the register with the sysctl variables and the path index `pI`; `Checker` holds
-- the static variables of `pathChecker`. Flags of a bit field are Booleans. A socket is its
-- address, and `Socks` gives what the scheduler reads at each address, which does not change
-- during a call.
--
-- Numbers. Unsigned types are numbers that wrap at 2 ^ 8, 2 ^ 32 or 2 ^ 64, signed ones and times
-- are integers that wrap in two's complement; the operations are in Prelude/Word. A division by 0,
-- which is undefined in C, gives 0 here.
--
-- Loops. They are recursions on the list, with these exceptions. `kick_loop`, the loop that removes
-- subflows beyond the target, runs on the number of available subflows as fuel, and each round
-- takes one off this number. `try_masks` of the path check runs on 2 ^ sk_list_size rounds, one
-- for each mask, as the loop of the source does. The `retry` of the round robin scheduler runs on
-- rounds, of which two are enough for a burst of at least one segment.
--
-- Lowpass. Its global and static variables are three states: the ring `LowpassQueue`, the `Learner`,
-- which contains it, and the list of `Channel`s, one for each socket in use of the arrays `sk_list`
-- and `last_send`. A write behind these arrays is a fault.
--
-- Options. They are lists of bytes, and a part of the writer is the bytes that it writes. Bit fields
-- are in the order of a little-endian machine, as are keys, tokens and nonces, which the source
-- copies as they are in memory. The parser's loop runs on as many rounds as there are bytes, each
-- of which takes at least one. The checksum functions are parameters.
--
-- Schedulers. The default scheduler's state is the sockets and the connection, with the write queue
-- as what was sent and what was not; what the kernel's functions answer about buffers and windows
-- is the argument `Around`. A list of schedulers is a list of records, and the modules' reference
-- counts are a function; that loading a module registers its schedulers is an argument.
--
-- Parameters. `Kernel` holds the kernel's functions on times and on sequence numbers, and
-- `entail` the answer of `mptcp_skb_entail` (rmptcp/net/mptcp/mptcp_output.c) at each socket;
-- `current_mss` is the kernel's `tcp_current_mss`. The list of the subflows of a connection, the
-- time of a call and the data sequence numbers in a receive queue are arguments.
--
-- Not modelled: printing, the push of pending frames, the rest of the MPTCP kernel in
-- rmptcp/net/mptcp (connections, data sequence numbers, the meta queues, path managers and congestion
-- controls), and the control centre in rmptcp_cc, which only writes the
-- sysctl variables. Of the options, the sizes that mptcp_established_options reserves for them are
-- not modelled, nor the parser's use of a socket for ADD_ADDR beyond the one version number.
pub mod Prelude
pub mod Register
pub mod Availability
pub mod SkList
pub mod Main
pub mod Bandwidth
pub mod Quota
pub mod Failure
pub mod AdaptPath
pub mod Check
pub mod SendPeriod
pub mod Send
pub mod Settings
pub mod PathCheck
pub mod Offers
pub mod Scheduler
pub mod Tests
pub mod Keeps
pub mod Validity
pub mod Lowpass
pub mod RoundRobin
pub mod Options
pub mod Default
pub mod Registry
pub mod Redundant
