-- ===== src/Transactions/Retries/Paid.antt =====
-- The bound on repetitions is kept by messages received and by timers (handle_receive_message_cb,
-- time_out_event).
use openair_cn_cups.Transactions.Steps.{Leaves, Delivers, Step-keeps, IsReachable, starts, steps}
use openair_cn_cups.Common.{
  true, false, refl, ltb→lt, ltb, Bool-cases, ◌<◌, if-both, inr, inl, Option-cases, ℕ, ◌+◌, ◌*◌,
  ◌≤◌, ◌≡◌, ◌==◌, ◌∷◌, Bool, Option, none, some, arith, subst,
}
use openair_cn_cups.StdMap.{erase, find, assign}
use openair_cn_cups.StdMap.Laws.{erase-both, insert-both, assign-both}
use openair_cn_cups.Transactions.{
  check_response_type, pfcp_t1_response_ms, pfcp_n1_requests, get_message_type, next_timer_id,
  pfcp_proc_time_out_ms, check_request_type, UintGenerator, get_uid, PfcpMsg, get_sequence_number,
  PfcpProcedure, sends_again, timer_setup, timer_remove, PfcpL4Stack,
}
use openair_cn_cups.Transactions.Operations.{
  proceed, checked_type, send_again, time_out_event, handle_receive_message_cb, opened, retry,
  continue_procedure, open_procedure,
}
use openair_cn_cups.Transactions.Retries.{
  requested, resent, Pays, IsPaid, Pays-resent, Pays-mono, Pays-own, send_request-IsPaid,
  send_response-IsPaid, replaced,
}

opened-IsPaid :
    (msg : PfcpMsg) (st : PfcpL4Stack) (o : Option (ℕ × UintGenerator))
    → IsPaid st
    → Delivers IsPaid (opened msg st o)
unfolding opened requested resent
opened-IsPaid msg st none h = tt
opened-IsPaid msg st (some (trxn_id, g)) h = λ seq.
    let paid = Pays-resent seq st.effects (find seq st.pending_procedures) (h seq) in
    let es = timer_setup pfcp_proc_time_out_ms (next_timer_id st) ∷ st.effects in
    insert-both (Pays seq es) seq (get_sequence_number msg) _ st.pending_procedures
      (λ same absent. paid)
      (Pays-mono seq st.effects es (find seq st.pending_procedures) (omega arith) (omega arith)
        (h seq))

proceed-IsPaid :
    (b : Bool) (msg : PfcpMsg) (p : PfcpProcedure) (st : PfcpL4Stack)
    → find (get_sequence_number msg) st.pending_procedures ≡ some p
    → IsPaid st
    → IsPaid (proceed b msg p st).0
unfolding proceed requested resent
proceed-IsPaid false msg p st found h = h
proceed-IsPaid true msg p st found h =
    if-both
      (λ (r : PfcpProcedure × PfcpL4Stack). IsPaid (record r.1 {
        pending_procedures = assign (get_sequence_number msg) r.0 st.pending_procedures;
      }))
      (p.retry_timer_id == 0)
      (λ seq.
        replaced seq (get_sequence_number msg) st.effects st.effects p _ st.pending_procedures found
          (omega arith) (omega arith) (h seq) (λ old same. ground (arith, old, same)))
      (λ seq.
        replaced seq (get_sequence_number msg) st.effects
          (timer_remove p.retry_timer_id ∷ st.effects) p _ st.pending_procedures found (omega arith)
          (omega arith) (h seq) (λ old same. ground (arith, old, same)))

receive-IsPaid :
    (msg : PfcpMsg) (st : PfcpL4Stack)
    → IsPaid st
    → Delivers IsPaid (handle_receive_message_cb msg st)
unfolding handle_receive_message_cb open_procedure continue_procedure
receive-IsPaid msg st h =
    elim (Option-cases (find (get_sequence_number msg) st.pending_procedures)) [
      | inl absent ↦
          rw (handle_receive_message_cb, absent)
            (if-both (Delivers IsPaid) (check_request_type (get_message_type msg))
              (opened-IsPaid msg st (get_uid 64 st.trxn_ids) h) h)
      | inr (p, found) ↦
          rw (handle_receive_message_cb, found)
            (proceed-IsPaid (check_response_type (checked_type p) (get_message_type msg)) msg p st
              found h)
    ]

send_again-IsPaid :
    (n : ℕ) (p : PfcpProcedure) (st : PfcpL4Stack) (o : Option PfcpMsg)
    → p.retry_msg ≡ o
    → p.retry_count < 3
    → find n st.pending_procedures ≡ some p
    → IsPaid st
    → Leaves IsPaid (send_again n p st o)
unfolding send_again requested resent
send_again-IsPaid n p st none e few found h = tt
send_again-IsPaid n p st (some msg) e few found h = λ seq.
    let again = record p { retry_timer_id = next_timer_id st; retry_count = p.retry_count + 1 } in
    let es =
      sends_again p.remote_endpoint msg
      ∷ (timer_setup pfcp_t1_response_ms (next_timer_id st) ∷ st.effects) in
    let (number, spent) = Pays-own n st.effects p msg e (subst (Pays n st.effects) found (h n)) in
    assign-both (Pays seq es) seq n again st.pending_procedures
      (λ same. ground (arith, e, number, spent, same, few))
      (λ ne.
        Pays-mono seq st.effects es (find seq st.pending_procedures) (ground (arith, number))
          (omega arith) (h seq))

retry-IsPaid :
    (n : ℕ) (p : PfcpProcedure) (st : PfcpL4Stack)
    → find n st.pending_procedures ≡ some p
    → IsPaid st
    → Leaves IsPaid (retry n p st)
unfolding retry
retry-IsPaid n p st found h = elim (Bool-cases (ltb p.retry_count pfcp_n1_requests)) [
  | inl few ↦ rw (retry, few) (send_again-IsPaid n p st p.retry_msg refl (ltb→lt _ _ few) found h)
  | inr many ↦ rw (retry, many) h
]

time_out_event-IsPaid :
    (timer_id : ℕ) (st : PfcpL4Stack) → IsPaid st → Leaves IsPaid (time_out_event timer_id st)
unfolding time_out_event
time_out_event-IsPaid timer_id st h = elim (Option-cases (find timer_id st.msg_out_retry_timers)) [
  | inr (n, armed) ↦ elim (Option-cases (find n st.pending_procedures)) [
    | inl absent ↦ rw (time_out_event, armed, absent) h
    | inr (p, found) ↦
        rw (time_out_event, armed, found)
          (retry-IsPaid n p
            (record st { msg_out_retry_timers = erase timer_id st.msg_out_retry_timers }) found h)
  ]
  | inl other ↦ elim (Option-cases (find timer_id st.proc_cleanup_timers)) [
    | inl absent ↦ rw (time_out_event, other, absent) h
    | inr (n, armed) ↦
        rw (time_out_event, other, armed)
          (λ seq.
            erase-both (Pays seq st.effects) seq n st.pending_procedures
              (λ same. Pays-resent seq st.effects (find seq st.pending_procedures) (h seq))
              (λ ne. h seq))
  ]
]

IsReachable-IsPaid : (st : PfcpL4Stack) → IsReachable st → IsPaid st
unfolding requested resent find
IsReachable-IsPaid st (starts _ _ _) = λ seq. omega arith
IsReachable-IsPaid st (steps before _ r s) =
    Step-keeps IsPaid send_request-IsPaid send_response-IsPaid receive-IsPaid time_out_event-IsPaid
      (λ timer_id st h. h) before st s (IsReachable-IsPaid before r)

-- In every state of the stack, requests with a given sequence number have been sent again at most
-- three times as often as requests with that number have been sent.
pub retransmissions_bounded :
    (st : PfcpL4Stack) (seq : ℕ)
    → IsReachable st
    → resent seq st.effects ≤ 3 * requested seq st.effects
retransmissions_bounded st seq r =
    Pays-resent seq st.effects (find seq st.pending_procedures) (IsReachable-IsPaid st r seq)
