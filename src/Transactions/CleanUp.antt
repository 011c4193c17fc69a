-- ===== src/Transactions/CleanUp.antt =====
-- Procedures that are given up (start_proc_cleanup_timer, time_out_event): what holds of the tables
-- of timers.
pub mod Opening
pub mod Closing
pub mod Freed
use openair_cn_cups.Common.{
  ◌%◌, ap, ℕ, ◌+◌, ◌≤◌, ◌<◌, ◌^◌, ◌≡◌, ◌≢◌, ◌==◌, if◌then◌else◌, if-both, Bool, Option, none, some,
  Option-cases, Bool-cases, inl, inr, arith, refl, sym, ◌∙◌, subst, ltb, some-inj, none-ne_some,
}
use openair_cn_cups.StdMap.{Map, find, insert, erase, assign}
use openair_cn_cups.StdMap.Laws.{
  find-insert, find-erase, find-assign, insert-both, erase-both, assign-both, find-insert_absent,
}
use openair_cn_cups.Uid.{UintGenerator, get_uid}
use openair_cn_cups.Transactions.{
  call, sends_response, PfcpMsg, get_message_type, get_sequence_number, PfcpProcedure, PfcpL4Stack,
  initial, next_timer_id, next_seq_num, check_request_type, pfcp_n1_requests,
}
use openair_cn_cups.Transactions.Operations.{
  numbered, send_request, send_response, delete_tx, opened, open_procedure, continue_procedure,
  handle_receive_message_cb, send_again, retry, time_out_event,
}
use openair_cn_cups.Transactions.Steps.{
  Step, requests, responds, receives, times_out, ticks, IsEarly, begins, follows, Leaves, Delivers,
}

-- An entry of a table of timers has a number that was handed out.
abbrev pub AtMost : ℕ → ℕ → Option ℕ → Type 0
AtMost bound t none = Unit
AtMost bound t (some _) = t ≤ bound

-- The clean-up timer of a pending procedure leads to it, and is no retry timer.
abbrev pub IsTimed : ℕ → Map ℕ → Map ℕ → ℕ → Option PfcpProcedure → Type 0
IsTimed bound cleanup retries seq none = Unit
IsTimed bound cleanup retries seq (some p) =
    (find p.proc_cleanup_timer_id cleanup ≡ some seq)
    × (find p.proc_cleanup_timer_id retries ≡ none)
    × (p.proc_cleanup_timer_id ≤ bound)

pub record IsValid (st : PfcpL4Stack) : Type 0 where
  pub retries : (t : ℕ) → AtMost st.timer_id t (find t st.msg_out_retry_timers)
  pub cleanups : (t : ℕ) → AtMost st.timer_id t (find t st.proc_cleanup_timers)
  pub pending :
      (seq : ℕ)
      → IsTimed st.timer_id st.proc_cleanup_timers st.msg_out_retry_timers seq
          (find seq st.pending_procedures)

pub AtMost-mono : (n m t : ℕ) (o : Option ℕ) → n ≤ m → AtMost n t o → AtMost m t o
AtMost-mono n m t none le h = tt
AtMost-mono n m t (some _) le h = omega arith

-- A number beyond all that were handed out is in no table.
pub AtMost-above : (n t : ℕ) (m : Map ℕ) → n < t → AtMost n t (find t m) → find t m ≡ none
AtMost-above n t m lt h = elim (Option-cases (find t m)) [
  | inl absent ↦ absent
  | inr (v, found) ↦ let le : t ≤ n = subst (AtMost n t) found h in absurd (omega arith)
]

pub AtMost-insert :
    (n k s t : ℕ) (m : Map ℕ) → n < k → AtMost n t (find t m) → AtMost k t (find t (insert k s m))
AtMost-insert n k s t m lt h =
    insert-both (AtMost k t) t k s m (λ same absent. omega arith)
      (AtMost-mono n k t (find t m) (omega arith) h)

pub AtMost-erase : (n k t : ℕ) (m : Map ℕ) → AtMost n t (find t m) → AtMost n t (find t (erase k m))
AtMost-erase n k t m h = erase-both (AtMost n t) t k m (λ same. tt) (λ ne. h)

-- Tables that look the same at the numbers handed out.
pub IsTimed-mono :
    (n m : ℕ) (cleanup cleanup' retries retries' : Map ℕ) (seq : ℕ) (o : Option PfcpProcedure)
    → n ≤ m
    → ((t : ℕ) → t ≤ n → find t cleanup' ≡ find t cleanup)
    → ((t : ℕ) → t ≤ n → find t retries ≡ none → find t retries' ≡ none)
    → IsTimed n cleanup retries seq o
    → IsTimed m cleanup' retries' seq o
IsTimed-mono n m cleanup cleanup' retries retries' seq none le same free h = tt
IsTimed-mono n m cleanup cleanup' retries retries' seq (some p) le same free (led, away, low) =
    (same _ low ∙ led, free _ low away, omega arith)

pub find-insert_above : (n k s t : ℕ) (m : Map ℕ) → n < k → t ≤ n → find t (insert k s m) ≡ find t m
find-insert_above n k s t m lt le = ground (arith, find-insert t k s m)

pub find-erase_none : (k t : ℕ) (m : Map ℕ) → find t m ≡ none → find t (erase k m) ≡ none
find-erase_none k t m e = ground (arith, find-erase t k m)
