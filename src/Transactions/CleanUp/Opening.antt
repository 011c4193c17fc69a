-- ===== src/Transactions/CleanUp/Opening.antt =====
-- New procedures (send_request, handle_receive_message_cb).
use openair_cn_cups.Common.{
  ◌%◌, ap, ℕ, ◌+◌, ◌≤◌, ◌<◌, ◌^◌, ◌≡◌, Option, none, some, arith, refl, sym, ◌∙◌, subst,
}
use openair_cn_cups.StdMap.{Map, find, insert}
use openair_cn_cups.StdMap.Laws.{insert-both, find-insert_absent}
use openair_cn_cups.Uid.{UintGenerator}
use openair_cn_cups.Transactions.{
  PfcpMsg, get_sequence_number, PfcpProcedure, PfcpL4Stack, next_seq_num,
}
use openair_cn_cups.Transactions.Operations.{numbered, send_request, opened}
use openair_cn_cups.Transactions.Steps.{Delivers}
use openair_cn_cups.Transactions.CleanUp.{
  IsTimed, IsValid, AtMost-mono, AtMost-above, AtMost-insert, IsTimed-mono, find-insert_above,
}

-- A new procedure, with the number `k` for its timer, beside those that are there.
pub added :
    (n k seq j : ℕ) (p : PfcpProcedure) (cleanup retries retries' : Map ℕ)
    → (pending : Map PfcpProcedure) → n < k
    → p.proc_cleanup_timer_id ≡ k
    → find k cleanup ≡ none
    → find k retries' ≡ none
    → ((t : ℕ) → t ≤ n → find t retries ≡ none → find t retries' ≡ none)
    → IsTimed n cleanup retries j (find j pending)
    → IsTimed k (insert k seq cleanup) retries' j (find j (insert seq p pending))
added n k seq j p cleanup retries retries' pending lt e fresh away free h =
    insert-both (IsTimed k (insert k seq cleanup) retries' j) j seq p pending
      (λ same absent. (
        subst (λ t. find t (insert k seq cleanup) ≡ some j) (sym e)
            (find-insert_absent k seq cleanup fresh ∙ ap some (sym same)),
        subst (λ t. find t retries' ≡ none) (sym e) away,
        omega arith,
      ))
      (IsTimed-mono n k cleanup (insert k seq cleanup) retries retries' j (find j pending)
        (omega arith) (λ t le. find-insert_above n k seq t cleanup lt le) free h)

pub send_request-IsValid :
    (dest : ℕ) (seid : Option ℕ) (m : PfcpMsg) (trxn_id : ℕ) (st : PfcpL4Stack)
    → st.timer_id + 2 < 2 ^ 32
    → IsValid st
    → IsValid (send_request dest seid m trxn_id st).0
unfolding send_request
send_request-IsValid dest seid m trxn_id st lt v =
    let n = st.timer_id in
    let seq = get_sequence_number (numbered seid (next_seq_num st.seq_num) m) in
    let first : (n + 1) % 2 ^ 32 ≡ n + 1 = omega arith in
    let second : (n + 1 + 1) % 2 ^ 32 ≡ n + 2 = omega arith in
    let retries' = insert (n + 1) seq st.msg_out_retry_timers in
    let away : find (n + 2) retries' ≡ none = AtMost-above (n + 1) (n + 2) retries' (omega arith) (
      AtMost-insert n (n + 1) seq (n + 2) st.msg_out_retry_timers (omega arith)
        (v.retries (n + 2))) in
    rw (first, second)
      (record {
        retries = λ t.
            AtMost-mono (n + 1) (n + 2) t (find t retries') (omega arith)
              (AtMost-insert n (n + 1) seq t st.msg_out_retry_timers (omega arith) (v.retries t));
        cleanups =
            λ t. AtMost-insert n (n + 2) seq t st.proc_cleanup_timers (omega arith) (v.cleanups t);
        pending = λ j.
            added n (n + 2) seq j _ st.proc_cleanup_timers st.msg_out_retry_timers retries'
              st.pending_procedures (omega arith) refl
              (AtMost-above n (n + 2) st.proc_cleanup_timers (omega arith) (v.cleanups (n + 2)))
              away
              (λ t le e.
                find-insert_above n (n + 1) seq t st.msg_out_retry_timers (omega arith) le ∙ e)
              (v.pending j);
      })

pub opened-IsValid :
    (msg : PfcpMsg) (st : PfcpL4Stack) (o : Option (ℕ × UintGenerator))
    → st.timer_id + 2 < 2 ^ 32
    → IsValid st
    → Delivers IsValid (opened msg st o)
unfolding opened
opened-IsValid msg st none lt v = tt
opened-IsValid msg st (some (trxn_id, g)) lt v =
    let n = st.timer_id in
    let seq = get_sequence_number msg in
    let first : (n + 1) % 2 ^ 32 ≡ n + 1 = omega arith in
    rw first (record {
      retries =
          λ t. AtMost-mono n (n + 1) t (find t st.msg_out_retry_timers) (omega arith) (v.retries t);
      cleanups =
          λ t. AtMost-insert n (n + 1) seq t st.proc_cleanup_timers (omega arith) (v.cleanups t);
      pending = λ j.
          added n (n + 1) seq j _ st.proc_cleanup_timers st.msg_out_retry_timers
            st.msg_out_retry_timers st.pending_procedures (omega arith) refl
            (AtMost-above n (n + 1) st.proc_cleanup_timers (omega arith) (v.cleanups (n + 1)))
            (AtMost-above n (n + 1) st.msg_out_retry_timers (omega arith) (v.retries (n + 1)))
            (λ t le e. e) (v.pending j);
    })
