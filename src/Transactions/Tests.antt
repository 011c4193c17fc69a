-- ===== src/Transactions/Tests.antt =====
-- The transactions of PFCP on concrete runs.
use openair_cn_cups.Common.{ℕ, ◌*◌, ◌≤◌, ◌≡◌, ◌==◌, if◌then◌else◌, [], ◌∷◌, none, some, refl, arith}
use openair_cn_cups.StdMap.{find, insert, erase, assign}
use openair_cn_cups.Pfcp.Header.{set_sequence_number, new_header}
use openair_cn_cups.Transactions.{PfcpMsg, PfcpProcedure, PfcpL4Stack, initial, is_request}
use openair_cn_cups.Transactions.Operations.{
  numbered, send_request, send_again, retry, time_out_event,
}
use openair_cn_cups.Transactions.Steps.{starts, steps, begins, follows, requests, times_out}
use openair_cn_cups.Transactions.Retries.{resent, requested}
use openair_cn_cups.Transactions.Retries.Paid.{retransmissions_bounded}
use openair_cn_cups.Transactions.CleanUp.Freed.{every_procedure_ends}
use openair_cn_cups.Transactions.Delivery.{handed, of_number}
use openair_cn_cups.Transactions.Delivery.Responses.{IsOnce, at_most_one_response}

abbrev typed : ℕ → PfcpMsg
typed t = record { header = record new_header { message_type = t; sequence_number = 1 }; ies = [] }

abbrev start : PfcpL4Stack
start = initial 0 0 (record { uid_generator = 0; uid_generated = [] })

-- A heartbeat request, to endpoint 7 in transaction 5.
abbrev asked : PfcpL4Stack
asked = (send_request 7 none (typed 1) 5 start).0

abbrev pending : PfcpProcedure
pending = record {
  retry_msg = some (typed 1);
  remote_endpoint = 7;
  retry_timer_id = 1;
  proc_cleanup_timer_id = 2;
  trxn_id = 5;
  initial_msg_type = 1;
  triggered_msg_type = 0;
  retry_count = 0;
}

-- Its first timer went off.
abbrev again : PfcpL4Stack
again = elim (time_out_event 1 asked) [ none ↦ asked | some st ↦ st ]

sent_twice : resent 1 again.effects ≡ 1
unfolding send_request numbered set_sequence_number time_out_event retry send_again find insert
    erase assign resent
sent_twice = refl

retransmissions_bounded_example : resent 1 again.effects ≤ 3 * requested 1 again.effects
unfolding send_request numbered set_sequence_number time_out_event retry send_again find insert
    erase assign
retransmissions_bounded_example = retransmissions_bounded again 1 (
    steps asked again
      (steps start asked (starts 0 0 (record { uid_generator = 0; uid_generated = [] }))
        (requests 7 none (typed 1) 5 start))
      (times_out 1 asked again refl))

every_procedure_ends_example :
    (st : PfcpL4Stack) × (time_out_event 2 asked ≡ some st)
    × ((j : ℕ)
        → find j st.pending_procedures ≡ (if j == 1 then none else find j asked.pending_procedures))
unfolding send_request numbered set_sequence_number find insert
every_procedure_ends_example =
    every_procedure_ends asked 1 pending
      (follows start asked (begins 0 0 (record { uid_generator = 0; uid_generated = [] }))
        (requests 7 none (typed 1) 5 start) (omega arith) (omega arith))
      refl

-- The response comes twice, and a request with the same number in between.
at_most_one_response_example :
    IsOnce 1 (of_number 1 (handed (typed 2 ∷ typed 1 ∷ typed 2 ∷ []) asked))
unfolding send_request numbered set_sequence_number find insert is_request
at_most_one_response_example =
    at_most_one_response asked 1 pending (typed 2 ∷ typed 1 ∷ typed 2 ∷ []) refl refl refl
