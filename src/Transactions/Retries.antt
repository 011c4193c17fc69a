-- ===== src/Transactions/Retries.antt =====
-- How often a request is sent (send_request, time_out_event).
pub mod Paid
use openair_cn_cups.Transactions.Steps.{Leaves, Delivers, Step-keeps, IsReachable, starts, steps}
use openair_cn_cups.Common.{
  true, false, refl, ltb→lt, ltb, Bool-cases, ◌<◌, if-both, inr, inl, Option-cases, ℕ, ◌+◌, ◌-◌,
  ◌*◌, ◌≤◌, ◌≡◌, ◌==◌, if◌then◌else◌, List, [], ◌∷◌, Bool, Option, none, some, arith, subst,
}
use openair_cn_cups.StdMap.{erase, Map, find, assign}
use openair_cn_cups.StdMap.Laws.{erase-both, insert-both, assign-both}
use openair_cn_cups.Transactions.{
  check_response_type, pfcp_t1_response_ms, pfcp_n1_requests, get_message_type, next_timer_id,
  pfcp_proc_time_out_ms, check_request_type, UintGenerator, get_uid, call, next_seq_num, PfcpMsg,
  get_sequence_number, PfcpProcedure, Effect, sends_request, sends_response, sends_again,
  timer_setup, timer_remove, PfcpL4Stack,
}
use openair_cn_cups.Transactions.Operations.{
  proceed, checked_type, send_again, time_out_event, handle_receive_message_cb, opened, retry,
  continue_procedure, open_procedure, numbered, send_request, send_response, delete_tx,
}

-- How many requests with the sequence number were sent the first time, and again.
unfoldable pub requested : ℕ → List Effect → ℕ
requested seq [] = 0
requested seq (sends_request _ m ∷ es) =
    (if get_sequence_number m == seq then 1 else 0) + requested seq es
requested seq (sends_response _ _ ∷ es) = requested seq es
requested seq (sends_again _ _ ∷ es) = requested seq es
requested seq (timer_setup _ _ ∷ es) = requested seq es
requested seq (timer_remove _ ∷ es) = requested seq es

unfoldable pub resent : ℕ → List Effect → ℕ
resent seq [] = 0
resent seq (sends_again _ m ∷ es) = (if get_sequence_number m == seq then 1 else 0) + resent seq es
resent seq (sends_request _ _ ∷ es) = resent seq es
resent seq (sends_response _ _ ∷ es) = resent seq es
resent seq (timer_setup _ _ ∷ es) = resent seq es
resent seq (timer_remove _ ∷ es) = resent seq es

-- A pending procedure holds the request with its number, and may send it up to three times again.
abbrev pub Pays : ℕ → List Effect → Option PfcpProcedure → Type 0
Pays seq es none = resent seq es ≤ 3 * requested seq es
Pays seq es (some p) = elim p.retry_msg [
  | none ↦ resent seq es ≤ 3 * requested seq es
  | some m ↦
      (get_sequence_number m ≡ seq) × (resent seq es + (3 - p.retry_count) ≤ 3 * requested seq es)
]

abbrev pub IsPaid : PfcpL4Stack → Type 0
IsPaid st = (seq : ℕ) → Pays seq st.effects (find seq st.pending_procedures)

pub Pays-resent :
    (seq : ℕ) (es : List Effect) (o : Option PfcpProcedure)
    → Pays seq es o
    → resent seq es ≤ 3 * requested seq es
Pays-resent seq es none h = h
Pays-resent seq es (some p) h = ground arith

pub Pays-mono :
    (seq : ℕ) (es es' : List Effect) (o : Option PfcpProcedure)
    → resent seq es' ≤ resent seq es
    → requested seq es ≤ requested seq es'
    → Pays seq es o
    → Pays seq es' o
Pays-mono seq es es' none r q h = omega arith
Pays-mono seq es es' (some p) r q h = ground arith

pub Pays-own :
    (seq : ℕ) (es : List Effect) (p : PfcpProcedure) (m : PfcpMsg)
    → p.retry_msg ≡ some m
    → Pays seq es (some p)
    → (get_sequence_number m ≡ seq) × (resent seq es + (3 - p.retry_count) ≤ 3 * requested seq es)
Pays-own seq es p m e h = ground arith

pub send_request-IsPaid :
    (dest : ℕ) (seid : Option ℕ) (m : PfcpMsg) (trxn_id : ℕ) (st : PfcpL4Stack)
    → IsPaid st
    → IsPaid (send_request dest seid m trxn_id st).0
unfolding send_request requested resent
send_request-IsPaid dest seid m trxn_id st h seq =
    let paid = Pays-resent seq st.effects (find seq st.pending_procedures) (h seq) in
    let n = get_sequence_number (numbered seid (next_seq_num st.seq_num) m) in
    insert-both (Pays seq (send_request dest seid m trxn_id st).0.effects) seq n _
      st.pending_procedures (λ same absent. ground (arith, paid, same))
      (Pays-mono seq st.effects (send_request dest seid m trxn_id st).0.effects
        (find seq st.pending_procedures) (omega arith) (ground arith) (h seq))

pub delete_tx-IsPaid :
    (trxn_id n : ℕ) (st : PfcpL4Stack) → IsPaid st → IsPaid (delete_tx trxn_id n st)
unfolding delete_tx requested resent
delete_tx-IsPaid trxn_id n st h seq = elim (Option-cases (find n st.pending_procedures)) [
  | inl absent ↦ rw (delete_tx, absent) (h seq)
  | inr (p, found) ↦
      let paid = Pays-resent seq st.effects (find seq st.pending_procedures) (h seq) in
      rw (delete_tx, found)
        (erase-both (Pays seq (timer_remove p.proc_cleanup_timer_id ∷ st.effects)) seq n
          st.pending_procedures (λ same. paid)
          (λ ne.
            Pays-mono seq st.effects (timer_remove p.proc_cleanup_timer_id ∷ st.effects)
              (find seq st.pending_procedures) (omega arith) (omega arith) (h seq)))
]

pub send_response-IsPaid :
    (dest : ℕ) (seid : Option ℕ) (m : PfcpMsg) (trxn_id : ℕ) (delete : Bool) (st : PfcpL4Stack)
    → IsPaid st
    → IsPaid (send_response dest seid m trxn_id delete st)
unfolding send_response requested resent
send_response-IsPaid dest seid m trxn_id delete st h =
    elim (Option-cases (find trxn_id st.trxn_id2seq_num)) [
      | inl absent ↦ rw (send_response, absent) h
      | inr (n, found) ↦
          let sent = call (sends_response dest (numbered seid n m)) st in
          let paid : IsPaid sent = λ seq.
            Pays-mono seq st.effects sent.effects (find seq st.pending_procedures) (omega arith)
              (omega arith) (h seq) in
          rw (send_response, found)
            (if-both IsPaid delete (delete_tx-IsPaid trxn_id n sent paid) paid)
    ]

-- A procedure that takes the place of one with the same request, no more often sent again.
pub replaced :
    (seq n : ℕ) (es es' : List Effect) (p q : PfcpProcedure) (pending : Map PfcpProcedure)
    → find n pending ≡ some p
    → resent seq es' ≤ resent seq es
    → requested seq es ≤ requested seq es'
    → Pays seq es (find seq pending)
    → (Pays n es (some p) → seq ≡ n → Pays seq es' (some q))
    → Pays seq es' (find seq (assign n q pending))
replaced seq n es es' p q pending found r k h new =
    assign-both (Pays seq es') seq n q pending
      (λ same. new (subst (Pays n es) found (subst (λ s. Pays s es (find s pending)) same h)) same)
      (λ ne. Pays-mono seq es es' (find seq pending) r k h)
