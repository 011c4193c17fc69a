-- ===== src/Transactions/CleanUp/Freed.antt =====
-- Timers that go off (time_out_event).
use openair_cn_cups.Common.{
  ◌%◌, ap, ℕ, ◌+◌, ◌≤◌, ◌<◌, ◌^◌, ◌≡◌, ◌≢◌, ◌==◌, if◌then◌else◌, if-both, Option, none, some,
  Option-cases, inl, inr, arith, refl, sym, ◌∙◌, subst, ltb, some-inj,
}
use openair_cn_cups.StdMap.{Map, find, insert, erase}
use openair_cn_cups.StdMap.Laws.{find-erase, erase-both}
use openair_cn_cups.Transactions.{
  PfcpMsg, get_sequence_number, PfcpProcedure, PfcpL4Stack, pfcp_n1_requests,
}
use openair_cn_cups.Transactions.Operations.{send_again, retry, time_out_event}
use openair_cn_cups.Transactions.Steps.{
  Step, requests, responds, receives, times_out, ticks, IsEarly, begins, follows, Leaves, Delivers,
}
use openair_cn_cups.Transactions.CleanUp.{
  IsTimed, IsValid, AtMost-mono, AtMost-insert, AtMost-erase, IsTimed-mono, find-insert_above,
}
use openair_cn_cups.Transactions.CleanUp.Opening.{send_request-IsValid}
use openair_cn_cups.Transactions.CleanUp.Closing.{
  send_response-IsValid, shrunk, receive-IsValid, replaced,
}

send_again-IsValid :
    (n : ℕ) (p : PfcpProcedure) (st : PfcpL4Stack) (o : Option PfcpMsg)
    → st.timer_id + 2 < 2 ^ 32
    → find n st.pending_procedures ≡ some p
    → IsValid st
    → Leaves IsValid (send_again n p st o)
unfolding send_again
send_again-IsValid n p st none lt found v = tt
send_again-IsValid n p st (some msg) lt found v =
    let b = st.timer_id in
    let seq = get_sequence_number msg in
    let first : (b + 1) % 2 ^ 32 ≡ b + 1 = omega arith in
    let retries' = insert (b + 1) seq st.msg_out_retry_timers in
    let armed : IsValid (record st { timer_id = b + 1; msg_out_retry_timers = retries' }) = record {
      retries =
          λ t. AtMost-insert b (b + 1) seq t st.msg_out_retry_timers (omega arith) (v.retries t);
      cleanups =
          λ t. AtMost-mono b (b + 1) t (find t st.proc_cleanup_timers) (omega arith) (v.cleanups t);
      pending = λ j.
          IsTimed-mono b (b + 1) st.proc_cleanup_timers st.proc_cleanup_timers
            st.msg_out_retry_timers retries' j (find j st.pending_procedures) (omega arith)
            (λ t le. refl)
            (λ t le e.
              find-insert_above b (b + 1) seq t st.msg_out_retry_timers (omega arith) le ∙ e)
            (v.pending j);
    } in
    let again =
      replaced (record st { timer_id = b + 1; msg_out_retry_timers = retries' }) n p
        (record p { retry_timer_id = b + 1; retry_count = p.retry_count + 1 }) found refl armed in
    rw first
      (record { retries = again.retries; cleanups = again.cleanups; pending = again.pending })

retry-IsValid :
    (n : ℕ) (p : PfcpProcedure) (st : PfcpL4Stack)
    → st.timer_id + 2 < 2 ^ 32
    → find n st.pending_procedures ≡ some p
    → IsValid st
    → Leaves IsValid (retry n p st)
unfolding retry
retry-IsValid n p st lt found v =
    if-both (Leaves IsValid) (ltb p.retry_count pfcp_n1_requests)
      (send_again-IsValid n p st p.retry_msg lt found v) v

IsTimed-erase :
    (b t n j : ℕ) (cleanup retries : Map ℕ) (o : Option PfcpProcedure)
    → find t cleanup ≡ some n
    → j ≢ n
    → IsTimed b cleanup retries j o
    → IsTimed b (erase t cleanup) retries j o
IsTimed-erase b t n j cleanup retries none armed ne h = tt
IsTimed-erase b t n j cleanup retries (some p) armed ne (led, away, low) = (
  erase-both (λ r. r ≡ some j) p.proc_cleanup_timer_id t cleanup
      (λ same. absurd (ne (some-inj (sym led ∙ ap (λ k. find k cleanup) same ∙ armed))))
      (λ other. led),
  away,
  low,
)

freed-IsValid :
    (t n : ℕ) (st : PfcpL4Stack)
    → find t st.proc_cleanup_timers ≡ some n
    → IsValid st
    → IsValid (record st {
      proc_cleanup_timers = erase t st.proc_cleanup_timers;
      pending_procedures = erase n st.pending_procedures;
    })
freed-IsValid t n st armed v = record {
  retries = v.retries;
  cleanups = λ k. AtMost-erase st.timer_id t k st.proc_cleanup_timers (v.cleanups k);
  pending = λ j.
      erase-both (IsTimed st.timer_id (erase t st.proc_cleanup_timers) st.msg_out_retry_timers j) j
        n st.pending_procedures (λ same. tt)
        (λ ne.
          IsTimed-erase st.timer_id t n j st.proc_cleanup_timers st.msg_out_retry_timers
            (find j st.pending_procedures) armed ne (v.pending j));
}

time_out_event-IsValid :
    (timer_id : ℕ) (st : PfcpL4Stack)
    → st.timer_id + 2 < 2 ^ 32
    → IsValid st
    → Leaves IsValid (time_out_event timer_id st)
unfolding time_out_event
time_out_event-IsValid timer_id st lt v =
    elim (Option-cases (find timer_id st.msg_out_retry_timers)) [
      | inr (n, armed) ↦ elim (Option-cases (find n st.pending_procedures)) [
        | inl absent ↦ rw (time_out_event, armed, absent) (shrunk st timer_id v)
        | inr (p, found) ↦
            rw (time_out_event, armed, found)
              (retry-IsValid n p
                (record st { msg_out_retry_timers = erase timer_id st.msg_out_retry_timers }) lt
                found (shrunk st timer_id v))
      ]
      | inl other ↦ elim (Option-cases (find timer_id st.proc_cleanup_timers)) [
        | inl absent ↦ rw (time_out_event, other, absent) v
        | inr (n, armed) ↦ rw (time_out_event, other, armed) (freed-IsValid timer_id n st armed v)
      ]
    ]

ticks-IsValid :
    (timer_id : ℕ) (st : PfcpL4Stack)
    → st.timer_id ≤ timer_id
    → IsValid st
    → IsValid (record st { timer_id = timer_id })
ticks-IsValid timer_id st le v = record {
  retries =
      λ t. AtMost-mono st.timer_id timer_id t (find t st.msg_out_retry_timers) le (v.retries t);
  cleanups =
      λ t. AtMost-mono st.timer_id timer_id t (find t st.proc_cleanup_timers) le (v.cleanups t);
  pending = λ j.
      IsTimed-mono st.timer_id timer_id st.proc_cleanup_timers st.proc_cleanup_timers
        st.msg_out_retry_timers st.msg_out_retry_timers j (find j st.pending_procedures) le
        (λ t low. refl) (λ t low e. e) (v.pending j);
}

Step-IsValid :
    (st st' : PfcpL4Stack)
    → Step st st'
    → st.timer_id + 2 < 2 ^ 32
    → st.timer_id ≤ st'.timer_id
    → IsValid st
    → IsValid st'
Step-IsValid st st' (requests dest seid m trxn_id _) lt le v =
    send_request-IsValid dest seid m trxn_id st lt v
Step-IsValid st st' (responds dest seid m trxn_id delete _) lt le v =
    send_response-IsValid dest seid m trxn_id delete st v
Step-IsValid st st' (receives msg _ _ _ e) lt le v =
    subst (Delivers IsValid) e (receive-IsValid msg st lt v)
Step-IsValid st st' (times_out timer_id _ _ e) lt le v =
    subst (Leaves IsValid) e (time_out_event-IsValid timer_id st lt v)
Step-IsValid st st' (ticks timer_id _) lt le v = ticks-IsValid (timer_id % 2 ^ 32) st le v

IsEarly-IsValid : (st : PfcpL4Stack) → IsEarly st → IsValid st
unfolding find
IsEarly-IsValid st (begins _ _ _) = record {
  retries = λ t. tt;
  cleanups = λ t. tt;
  pending = λ j. tt;
}
IsEarly-IsValid st (follows before _ r s lt le) =
    Step-IsValid before st s lt le (IsEarly-IsValid before r)

-- As long as the counter of timers has not come round, every pending procedure has a clean-up timer
-- of its own: when that goes off, the procedure is gone, and every other pending one is as it was.
pub every_procedure_ends :
    (st : PfcpL4Stack) (seq : ℕ) (p : PfcpProcedure)
    → IsEarly st
    → find seq st.pending_procedures ≡ some p
    → (st' : PfcpL4Stack) × (time_out_event p.proc_cleanup_timer_id st ≡ some st')
      × ((j : ℕ)
          → find j st'.pending_procedures
            ≡ (if j == seq then none else find j st.pending_procedures))
unfolding time_out_event
every_procedure_ends st seq p r found =
    let (led, away, low) =
      subst (IsTimed st.timer_id st.proc_cleanup_timers st.msg_out_retry_timers seq) found
        ((IsEarly-IsValid st r).pending seq) in
    (
      record st {
        proc_cleanup_timers = erase p.proc_cleanup_timer_id st.proc_cleanup_timers;
        pending_procedures = erase seq st.pending_procedures;
      },
      rw (time_out_event, away, led) refl,
      λ j. find-erase j seq st.pending_procedures,
    )
