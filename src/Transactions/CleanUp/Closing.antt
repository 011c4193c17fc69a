-- ===== src/Transactions/CleanUp/Closing.antt =====
-- Messages of pending procedures, and procedures that end with their response (send_response,
-- handle_receive_message_cb).
use openair_cn_cups.Common.{
  true, false, ap, ℕ, ◌+◌, ◌≤◌, ◌<◌, ◌^◌, ◌≡◌, ◌==◌, if-both, Bool, Option, some, Option-cases, inl,
  inr, arith, refl, sym, ◌∙◌, subst,
}
use openair_cn_cups.StdMap.{find, erase, assign}
use openair_cn_cups.StdMap.Laws.{erase-both, assign-both}
use openair_cn_cups.Uid.{get_uid}
use openair_cn_cups.Transactions.{
  check_response_type, Effect, timer_remove, call, sends_response, PfcpMsg, get_message_type,
  get_sequence_number, PfcpProcedure, PfcpL4Stack, check_request_type,
}
use openair_cn_cups.Transactions.Operations.{
  proceed, checked_type, numbered, send_response, delete_tx, open_procedure, continue_procedure,
  handle_receive_message_cb,
}
use openair_cn_cups.Transactions.Steps.{Delivers}
use openair_cn_cups.Transactions.CleanUp.{
  IsTimed, IsValid, AtMost-erase, IsTimed-mono, find-erase_none,
}
use openair_cn_cups.Transactions.CleanUp.Opening.{opened-IsValid}

-- Retry timers may go, and pending procedures too.
pub shrunk :
    (st : PfcpL4Stack) (k : ℕ)
    → IsValid st
    → IsValid (record st { msg_out_retry_timers = erase k st.msg_out_retry_timers })
shrunk st k v = record {
  retries = λ t. AtMost-erase st.timer_id k t st.msg_out_retry_timers (v.retries t);
  cleanups = v.cleanups;
  pending = λ j.
      IsTimed-mono st.timer_id st.timer_id st.proc_cleanup_timers st.proc_cleanup_timers
        st.msg_out_retry_timers (erase k st.msg_out_retry_timers) j (find j st.pending_procedures)
        (omega arith) (λ t le. refl) (λ t le e. find-erase_none k t st.msg_out_retry_timers e)
        (v.pending j);
}

recorded : (e : Effect) (st : PfcpL4Stack) → IsValid st → IsValid (call e st)
recorded e st v = record { retries = v.retries; cleanups = v.cleanups; pending = v.pending }

delete_tx-IsValid :
    (trxn_id n : ℕ) (st : PfcpL4Stack) → IsValid st → IsValid (delete_tx trxn_id n st)
unfolding delete_tx
delete_tx-IsValid trxn_id n st v = elim (Option-cases (find n st.pending_procedures)) [
  | inl absent ↦
      rw (delete_tx, absent)
        (record { retries = v.retries; cleanups = v.cleanups; pending = v.pending })
  | inr (p, found) ↦
      let w = shrunk st p.proc_cleanup_timer_id v in
      rw (delete_tx, found)
        (record {
          retries = w.retries;
          cleanups = w.cleanups;
          pending = λ j.
              erase-both
                (IsTimed st.timer_id st.proc_cleanup_timers
                  (erase p.proc_cleanup_timer_id st.msg_out_retry_timers) j)
                j n st.pending_procedures (λ same. tt) (λ ne. w.pending j);
        })
]

pub send_response-IsValid :
    (dest : ℕ) (seid : Option ℕ) (m : PfcpMsg) (trxn_id : ℕ) (delete : Bool) (st : PfcpL4Stack)
    → IsValid st
    → IsValid (send_response dest seid m trxn_id delete st)
unfolding send_response
send_response-IsValid dest seid m trxn_id delete st v =
    elim (Option-cases (find trxn_id st.trxn_id2seq_num)) [
      | inl absent ↦ rw (send_response, absent) v
      | inr (n, found) ↦
          let sent = call (sends_response dest (numbered seid n m)) st in
          let w : IsValid sent = record {
            retries = v.retries;
            cleanups = v.cleanups;
            pending = v.pending;
          } in
          rw (send_response, found) (if-both IsValid delete (delete_tx-IsValid trxn_id n sent w) w)
    ]

-- A procedure that takes the place of one with the same clean-up timer.
pub replaced :
    (st : PfcpL4Stack) (seq : ℕ) (p q : PfcpProcedure)
    → find seq st.pending_procedures ≡ some p
    → q.proc_cleanup_timer_id ≡ p.proc_cleanup_timer_id
    → IsValid st
    → IsValid (record st { pending_procedures = assign seq q st.pending_procedures })
replaced st seq p q found e v =
    let timed = IsTimed st.timer_id st.proc_cleanup_timers st.msg_out_retry_timers in
    let old : timed seq (some p) = subst (timed seq) found (v.pending seq) in
    record {
      retries = v.retries;
      cleanups = v.cleanups;
      pending = λ j.
          assign-both (timed j) j seq q st.pending_procedures
            (λ same. (
              ap (λ t. find t st.proc_cleanup_timers) e ∙ old.0 ∙ ap some (sym same),
              ap (λ t. find t st.msg_out_retry_timers) e ∙ old.1,
              subst (λ t. t ≤ st.timer_id) (sym e) old.2,
            ))
            (λ ne. v.pending j);
    }

proceed-IsValid :
    (b : Bool) (msg : PfcpMsg) (p : PfcpProcedure) (st : PfcpL4Stack)
    → find (get_sequence_number msg) st.pending_procedures ≡ some p
    → IsValid st
    → IsValid (proceed b msg p st).0
unfolding proceed
proceed-IsValid false msg p st found v = v
proceed-IsValid true msg p st found v =
    if-both
      (λ (r : PfcpProcedure × PfcpL4Stack). IsValid (record r.1 {
        pending_procedures = assign (get_sequence_number msg) r.0 st.pending_procedures;
      }))
      (p.retry_timer_id == 0) (replaced st (get_sequence_number msg) p _ found refl v)
      (replaced
        (record (call (timer_remove p.retry_timer_id) st) {
          msg_out_retry_timers = erase p.retry_timer_id st.msg_out_retry_timers;
        })
        (get_sequence_number msg) p _ found refl
        (recorded (timer_remove p.retry_timer_id) _ (shrunk st p.retry_timer_id v)))

pub receive-IsValid :
    (msg : PfcpMsg) (st : PfcpL4Stack)
    → st.timer_id + 2 < 2 ^ 32
    → IsValid st
    → Delivers IsValid (handle_receive_message_cb msg st)
unfolding handle_receive_message_cb open_procedure continue_procedure
receive-IsValid msg st lt v =
    elim (Option-cases (find (get_sequence_number msg) st.pending_procedures)) [
      | inl absent ↦
          rw (handle_receive_message_cb, absent)
            (if-both (Delivers IsValid) (check_request_type (get_message_type msg))
              (opened-IsValid msg st (get_uid 64 st.trxn_ids) lt v) v)
      | inr (p, found) ↦
          rw (handle_receive_message_cb, found)
            (proceed-IsValid (check_response_type (checked_type p) (get_message_type msg)) msg p st
              found v)
    ]
