-- ===== src/Lib.antt =====
-- An LTE gateway with control and user plane separation: what the switch of the user plane does with
-- the requests of the control plane and with packets, how the elements of the PFCP messages between
-- the two planes are written and read, how their requests are paired with responses and sent again,
-- which nodes the user plane is associated with, and which addresses the packet gateway's control
-- plane gives to subscribers.
--
-- Parts. The control plane (src/pgwc, src/sgwc) sends session requests in PFCP messages
-- (src/pfcp). The user plane's switch (src/spgwu/simpleswitch) creates, changes and deletes sessions
-- of rules from them; a packet detection rule (PDR) matches packets, and names the action rule (FAR)
-- that says where they go. On both sides a stack of transactions (src/pfcp/pfcp.cpp) stands between
-- the messages and the tasks that handle them. The control plane takes subscribers' addresses from
-- pools (src/pgwc/pgw_paa_dynamic.hpp). Sessions and tunnels get their identifiers from a generator
-- (src/common/utils/uint_generator.hpp).
--
-- Files and code.
--   Common: results, big-endian numbers (src/common/serializable.hpp), flags of a byte, lists. A read
--     from a stream (std::istream::read) never refuses: at the end of the stream it stores the bytes
--     that are left, the others stay as they were in memory, and the code goes on. A stream in failure
--     is the empty list of bytes, since the code never asks for the failure and a read from either
--     stores nothing.
--   Uid: uint_generator; the set of identifiers is a list that holds none twice.
--   StdMap: std::map on numbers, as a list of entries.
--   Transactions: pfcp_procedure and pfcp_l4_stack with its timers. Transactions/Operations:
--     send_request, send_response, handle_receive_message_cb and time_out_event;
--     Transactions/Steps: the runs of the stack. Timers are those of src/itti/itti.cpp.
--   Paa: ipv4_pool, on 32-bit numbers. Paa/Dynamic: paa_dynamic, which keeps the pools of the access
--     points; where get_free_paa reads through the end of a list, the model answers none.
--   Associations: pfcp_associations (src/spgwu/spgwu_pfcp_association.cpp), on a heap; its two
--     add_association are one with optional features. Associations/Runs: the calls as steps.
--   Pfcp/Tlv, Pfcp/Header: pfcp_tlv and pfcp_msg_header (src/pfcp/3gpp_29.244.hpp).
--   Pfcp/Scalar and its Classes: the element classes with one number, as a table of their types,
--     widths and the lengths that load_from checks.
--   Pfcp/Fteid, Fseid, UeIpAddress, ApplyAction, OuterHeaderCreation, BitRate, VolumeThreshold: the
--     classes of that name. of_core is the constructor from the core type; receive is
--     pfcp_ie::new_pfcp_ie_from_stream on that type: the header, then load_from into a new object,
--     whose memory is an argument (garbage) where the constructor leaves members unset.
--   Pfcp/Message: pfcp_grouped_ie, new_pfcp_ie_from_stream and pfcp_msg, on trees of elements. The
--     classes of elements without others in them are an interface, LeafCodec with its laws IsLeafCodec;
--     Pfcp/Message/Leaves fills it with the classes of one number, the apply action and the outer
--     header creation.
--   Switch/Ies, Switch/Requests: the members of the messages of src/pfcp/msg_pfcp.hpp that the switch
--     reads, a pair of a Boolean and a value being the source's std::pair<bool, T>; the two create
--     loops of the handlers.
--   Switch/Far, Switch/Pdr: pfcp_far and pfcp_pdr. What is sent on a socket is an Output.
--   Switch/Tables: the maps of pfcp_switch. A shared pointer to a rule or a session is an index into
--     a heap, because tables and sessions share the objects. Calls of other parts (associations, the
--     BPF manager) are recorded in order.
--   Switch/Session: pfcp_session. Switch/Establishment, Switch/Modification: the three handlers, on
--     every branch. Switch/Forwarding: the two packet lookups.
--   Switch/HashMap: folly::AtomicHashMap is a parameter, find, insert, assign and erase, with its
--     documented laws (IsHashMap); Switch/FunctionMap fills it.
--   Switch/Validity and below: the invariant, one module for each group of operations.
--   Switch/Scenario, the Tests and the Witnesses: a session, its packets, and concrete runs.
--
-- Bounds and fuel. A number of w bits is a natural number below 2 ^ w, its wrap-around written out.
-- get_uid searches from the last identifier; its fuel is one round more than there are identifiers in
-- use, which is enough because the candidates it tries are all different as long as fewer than 2 ^ w
-- are in use; otherwise the loop of the source does not end, and the model answers none. Timers have
-- 32-bit numbers that come round; IsEarly says of a run of the stack that they did not yet. The loops
-- over the elements of a message have one round for every byte of the stream, since every element
-- takes a byte of it at least, and none is made at its end. The search for a free address goes through as many words as the pool
-- has. All other loops are recursion on the list they go through.
--
-- Not modelled: sockets, threads, the timer task and the ring of packets; IPv6 packets, which the
-- source drops; the constructors of the grouped elements; GTPv2-C and GTP-U messages; the control
-- plane's contexts and procedures, its associations, and the Sx tasks; configuration and logging.
pub mod Common
pub mod StdMap
pub mod Uid
pub mod Pfcp
pub mod Transactions
pub mod Paa
pub mod Associations
pub mod Switch
