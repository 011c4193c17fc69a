-- ===== src/Transactions/Operations.antt =====
-- The operations of pfcp_l4_stack (src/pfcp/pfcp.cpp): send_request, send_response,
-- handle_receive_message_cb and time_out_event.
use openair_cn_cups.Common.{true, false, ℕ, ◌+◌, ◌==◌, ltb, if◌then◌else◌, Bool, Option, none, some}
use openair_cn_cups.StdMap.{find, insert, erase, assign}
use openair_cn_cups.Uid.{UintGenerator, get_uid}
use openair_cn_cups.Pfcp.Header.{set_seid, set_sequence_number}
use openair_cn_cups.Transactions.{
  PfcpMsg, get_message_type, get_sequence_number, PfcpProcedure, no_procedure, sends_request,
  sends_response, sends_again, PfcpL4Stack, pfcp_t1_response_ms, pfcp_n1_requests,
  pfcp_proc_time_out_ms, call, next_seq_num, check_request_type, check_response_type,
  start_msg_retry_timer, start_proc_cleanup_timer, stop_msg_retry_timer, stop_proc_cleanup_timer,
}

-- The message with its session, if it has one, and its sequence number.
unfoldable pub numbered : Option ℕ → ℕ → PfcpMsg → PfcpMsg
numbered none seq m = record m { header = set_sequence_number seq m.header }
numbered (some seid) seq m = record m { header = set_sequence_number seq (set_seid seid m.header) }

-- send_request, the same for every request; `seid` is set for those of a session. The number of the
-- request is returned.
unfoldable pub send_request : ℕ → Option ℕ → PfcpMsg → ℕ → PfcpL4Stack → PfcpL4Stack × ℕ
unfolding numbered
send_request dest seid m trxn_id st =
    let seq = next_seq_num st.seq_num in
    let msg = numbered seid seq m in
    let n = get_sequence_number msg in
    let proc = record no_procedure {
      initial_msg_type = get_message_type msg;
      trxn_id = trxn_id;
      retry_msg = some msg;
      remote_endpoint = dest;
    } in
    let retried = start_msg_retry_timer proc pfcp_t1_response_ms n (record st { seq_num = seq }) in
    let timed = start_proc_cleanup_timer retried.0 pfcp_proc_time_out_ms n retried.1 in
    (
      call (sends_request dest msg) (record timed.1 {
        pending_procedures = insert n timed.0 timed.1.pending_procedures;
        trxn_id2seq_num = insert trxn_id n timed.1.trxn_id2seq_num;
      }),
      n,
    )

-- The part of send_response under DELETE_TX.
unfoldable pub delete_tx : ℕ → ℕ → PfcpL4Stack → PfcpL4Stack
delete_tx trxn_id seq st =
    let closed : PfcpL4Stack = elim (find seq st.pending_procedures) [
      | none ↦ st
      | some p ↦ record (stop_proc_cleanup_timer p st) {
        pending_procedures = erase seq st.pending_procedures;
      }
    ] in
    record closed { trxn_id2seq_num = erase trxn_id st.trxn_id2seq_num }

-- send_response, the same for every response; `delete` is the action DELETE_TX.
unfoldable pub send_response : ℕ → Option ℕ → PfcpMsg → ℕ → Bool → PfcpL4Stack → PfcpL4Stack
unfolding numbered delete_tx
send_response dest seid m trxn_id delete st = elim (find trxn_id st.trxn_id2seq_num) [
  | none ↦ st
  | some seq ↦
      let sent = call (sends_response dest (numbered seid seq m)) st in
      if delete then delete_tx trxn_id seq sent else sent
]

-- A request that opens a procedure, once generate_trxn_id has answered; `none` where it finds no
-- number.
unfoldable pub opened :
    PfcpMsg → PfcpL4Stack → Option (ℕ × UintGenerator) → Option (PfcpL4Stack × Option ℕ)
opened msg st none = none
opened msg st (some (trxn_id, g)) =
    let n = get_sequence_number msg in
    let proc = record no_procedure { trxn_id = trxn_id; initial_msg_type = get_message_type msg } in
    let timed =
      start_proc_cleanup_timer proc pfcp_proc_time_out_ms n (record st { trxn_ids = g }) in
    some (
      record timed.1 {
        pending_procedures = insert n timed.0 timed.1.pending_procedures;
        trxn_id2seq_num = insert trxn_id n timed.1.trxn_id2seq_num;
      },
      some trxn_id,
    )

unfoldable pub open_procedure : PfcpMsg → PfcpL4Stack → Option (PfcpL4Stack × Option ℕ)
unfolding get_uid opened
open_procedure msg st = opened msg st (get_uid 64 st.trxn_ids)

-- check_initial_msg_type
unfoldable pub checked_type : PfcpProcedure → ℕ
checked_type p = if p.triggered_msg_type == 0 then p.initial_msg_type else p.triggered_msg_type

abbrev pub answered : PfcpMsg → PfcpProcedure → PfcpProcedure
answered msg p = record p {
  triggered_msg_type =
      if p.triggered_msg_type == 0 then get_message_type msg else p.triggered_msg_type;
}

-- A message with the number of a pending procedure, once check_response_type has answered.
unfoldable pub proceed : Bool → PfcpMsg → PfcpProcedure → PfcpL4Stack → PfcpL4Stack × Option ℕ
proceed false msg p st = (st, none)
proceed true msg p st =
    let stopped = stop_msg_retry_timer (answered msg p) st in
    (
      record stopped.1 {
        pending_procedures = assign (get_sequence_number msg) stopped.0 st.pending_procedures;
      },
      some p.trxn_id,
    )

unfoldable pub continue_procedure : PfcpMsg → PfcpProcedure → PfcpL4Stack → PfcpL4Stack × Option ℕ
unfolding check_response_type checked_type proceed
continue_procedure msg p st =
    proceed (check_response_type (checked_type p) (get_message_type msg)) msg p st

-- handle_receive_message_cb: the transaction handed on, or none where `error` is set.
unfoldable pub handle_receive_message_cb : PfcpMsg → PfcpL4Stack → Option (PfcpL4Stack × Option ℕ)
unfolding open_procedure continue_procedure check_request_type
handle_receive_message_cb msg st = elim (find (get_sequence_number msg) st.pending_procedures) [
  | none ↦
      if check_request_type (get_message_type msg) then open_procedure msg st else some (st, none)
  | some p ↦ some (continue_procedure msg p st)
]

-- The message is sent again; `none` where the code reads through the null pointer that retry_msg is
-- in a procedure opened by a message received.
unfoldable pub send_again : ℕ → PfcpProcedure → PfcpL4Stack → Option PfcpMsg → Option PfcpL4Stack
send_again seq p st none = none
send_again seq p st (some msg) =
    let counted = record p { retry_count = p.retry_count + 1 } in
    let started = start_msg_retry_timer counted pfcp_t1_response_ms (get_sequence_number msg) st in
    some (
      call (sends_again p.remote_endpoint msg)
        (record started.1 { pending_procedures = assign seq started.0 st.pending_procedures }))

-- A retry timer of the procedure at `seq` went off.
unfoldable pub retry : ℕ → PfcpProcedure → PfcpL4Stack → Option PfcpL4Stack
unfolding send_again
retry seq p st =
    if ltb p.retry_count pfcp_n1_requests then send_again seq p st p.retry_msg else some st

-- time_out_event, without its result `handled`.
unfoldable pub time_out_event : ℕ → PfcpL4Stack → Option PfcpL4Stack
unfolding retry
time_out_event timer_id st = elim (find timer_id st.msg_out_retry_timers) [
  | some seq ↦
      let st' = record st { msg_out_retry_timers = erase timer_id st.msg_out_retry_timers } in
      elim (find seq st.pending_procedures) [ none ↦ some st' | some p ↦ retry seq p st' ]
  | none ↦ elim (find timer_id st.proc_cleanup_timers) [
    | none ↦ some st
    | some seq ↦ some (record st {
      proc_cleanup_timers = erase timer_id st.proc_cleanup_timers;
      pending_procedures = erase seq st.pending_procedures;
    })
  ]
]
