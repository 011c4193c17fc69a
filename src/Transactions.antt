-- ===== src/Transactions.antt =====
-- src/pfcp/pfcp.hpp and pfcp.cpp: pfcp_l4_stack, which pairs requests with responses by their sequence
-- numbers, sends requests again and gives up on procedures. Timers are those of itti (src/itti/itti.cpp):
-- timer_setup answers the next number of a 32-bit counter. trxn_ids is the generator of transaction
-- numbers that the program has one of.
pub mod Operations
pub mod Steps
pub mod Retries
pub mod CleanUp
pub mod Delivery
mod Tests
use openair_cn_cups.Common.{
  ℕ, ◌+◌, ◌%◌, ◌^◌, ◌==◌, ltb, if◌then◌else◌, Bool, true, List, [], ◌∷◌, Option, none, some,
}
use openair_cn_cups.StdMap.{Map, find, insert, erase, assign}
use openair_cn_cups.Uid.{UintGenerator, get_uid}
use openair_cn_cups.Pfcp.Header.{Header, set_seid, set_sequence_number}

-- pfcp_msg: the header, and what the information elements write.
pub record PfcpMsg : Type 0 where
  pub header : Header
  pub ies : List ℕ

abbrev pub get_message_type : PfcpMsg → ℕ
get_message_type m = m.header.message_type

abbrev pub get_sequence_number : PfcpMsg → ℕ
get_sequence_number m = m.header.sequence_number

pub record PfcpProcedure : Type 0 where
  pub retry_msg : Option PfcpMsg
  pub remote_endpoint : ℕ
  pub retry_timer_id : ℕ
  pub proc_cleanup_timer_id : ℕ
  pub trxn_id : ℕ
  pub initial_msg_type : ℕ
  pub triggered_msg_type : ℕ
  pub retry_count : ℕ

abbrev pub no_procedure : PfcpProcedure
no_procedure = record {
  retry_msg = none;
  remote_endpoint = 0;
  retry_timer_id = 0;
  proc_cleanup_timer_id = 0;
  trxn_id = 0;
  initial_msg_type = 0;
  triggered_msg_type = 0;
  retry_count = 0;
}

-- What leaves the stack: a request, from the allocated port; a response or a request sent again, from
-- port 8805, each to an endpoint; and calls of the timer task.
pub data Effect : Type 0 where
  sends_request : ℕ → PfcpMsg → Effect
  sends_response : ℕ → PfcpMsg → Effect
  sends_again : ℕ → PfcpMsg → Effect
  timer_setup : ℕ → ℕ → Effect
  timer_remove : ℕ → Effect

pub record PfcpL4Stack : Type 0 where
  pub seq_num : ℕ
  pub trxn_id2seq_num : Map ℕ
  pub proc_cleanup_timers : Map ℕ
  pub msg_out_retry_timers : Map ℕ
  pub pending_procedures : Map PfcpProcedure
  pub timer_id : ℕ
  pub trxn_ids : UintGenerator
  pub effects : List Effect

-- The constructor, which starts from the nanoseconds of the clock.
abbrev pub initial : ℕ → ℕ → UintGenerator → PfcpL4Stack
initial tv_nsec timer_id trxn_ids = record {
  seq_num = tv_nsec % 2 ^ 31;
  trxn_id2seq_num = [];
  proc_cleanup_timers = [];
  msg_out_retry_timers = [];
  pending_procedures = [];
  timer_id = timer_id;
  trxn_ids = trxn_ids;
  effects = [];
}

abbrev pub pfcp_t1_response_ms : ℕ
pfcp_t1_response_ms = 1000

abbrev pub pfcp_n1_requests : ℕ
pfcp_n1_requests = 3

-- PFCP_T1_RESPONSE_MS * (PFCP_N1_REQUESTS + 1 + 1)
abbrev pub pfcp_proc_time_out_ms : ℕ
pfcp_proc_time_out_ms = 5000

abbrev pub call : Effect → PfcpL4Stack → PfcpL4Stack
call e st = record st { effects = e ∷ st.effects }

-- ++seq_num, back to 0 when bit 31 is set.
abbrev pub next_seq_num : ℕ → ℕ
next_seq_num s = if s + 1 == 2 ^ 31 then 0 else s + 1

-- The types of messages that open a procedure, and those of requests that have a response.
unfoldable pub is_request : ℕ → Bool
is_request initial =
    if initial == 1
    then true
    else if initial == 3
    then true
    else if initial == 5
    then true
    else if initial == 7
    then true
    else if initial == 9
    then true
    else if initial == 12
    then true
    else if initial == 50
    then true
    else if initial == 52
    then true
    else if initial == 54
    then true
    else initial == 56

unfoldable pub check_request_type : ℕ → Bool
unfolding is_request
check_request_type initial =
    if initial == 13 then true else if initial == 57 then true else is_request initial

unfoldable pub check_response_type : ℕ → ℕ → Bool
unfolding is_request
check_response_type initial triggered =
    if is_request initial then triggered == initial + 1 else triggered == 11

-- itti_inst->timer_setup
abbrev pub next_timer_id : PfcpL4Stack → ℕ
next_timer_id st = (st.timer_id + 1) % 2 ^ 32

abbrev pub start_msg_retry_timer : PfcpProcedure → ℕ → ℕ → PfcpL4Stack → PfcpProcedure × PfcpL4Stack
start_msg_retry_timer p time_out_milli_seconds seq_num st =
    let t = next_timer_id st in
    (
      record p { retry_timer_id = t },
      record (call (timer_setup time_out_milli_seconds t) st) {
        timer_id = t;
        msg_out_retry_timers = insert t seq_num st.msg_out_retry_timers;
      },
    )

abbrev pub start_proc_cleanup_timer :
    PfcpProcedure → ℕ → ℕ → PfcpL4Stack → PfcpProcedure × PfcpL4Stack
start_proc_cleanup_timer p time_out_milli_seconds seq_num st =
    let t = next_timer_id st in
    (
      record p { proc_cleanup_timer_id = t },
      record (call (timer_setup time_out_milli_seconds t) st) {
        timer_id = t;
        proc_cleanup_timers = insert t seq_num st.proc_cleanup_timers;
      },
    )

-- Under the caller's test of the timer's number, and its own.
abbrev pub stop_msg_retry_timer : PfcpProcedure → PfcpL4Stack → PfcpProcedure × PfcpL4Stack
stop_msg_retry_timer p st = if p.retry_timer_id == 0 then (p, st) else (
  record p { retry_timer_id = 0 },
  record (call (timer_remove p.retry_timer_id) st) {
    msg_out_retry_timers = erase p.retry_timer_id st.msg_out_retry_timers;
  },
)

-- The entry is erased from the table of the other timers.
abbrev pub stop_proc_cleanup_timer : PfcpProcedure → PfcpL4Stack → PfcpL4Stack
stop_proc_cleanup_timer p st = record (call (timer_remove p.proc_cleanup_timer_id) st) {
  msg_out_retry_timers = erase p.proc_cleanup_timer_id st.msg_out_retry_timers;
}
