-- ===== src/Transactions/Delivery.antt =====
-- What is handed on of the messages received (handle_receive_message_cb).
pub mod Responses
use openair_cn_cups.Common.{
  ◌⊎◌, ap, eq-or_ne, ◌∙◌, ==_iff, sym, subst, Bool, ℕ, ◌+◌, ◌≡◌, ◌≢◌, ◌==◌, ◌&&◌, not,
  if◌then◌else◌, List, [], ◌∷◌, true, false, Option, none, some, Option-cases, inl, inr, arith,
  refl, if-both,
}
use openair_cn_cups.StdMap.{find}
use openair_cn_cups.StdMap.Laws.{insert-both, assign-both}
use openair_cn_cups.Uid.{UintGenerator, get_uid}
use openair_cn_cups.Transactions.{
  PfcpMsg, get_message_type, get_sequence_number, PfcpProcedure, PfcpL4Stack, is_request,
  check_request_type, check_response_type,
}
use openair_cn_cups.Transactions.Operations.{
  proceed, checked_type, opened, open_procedure, continue_procedure, handle_receive_message_cb,
}

-- The messages handed on of those received one after the other.
unfoldable pub handed : List PfcpMsg → PfcpL4Stack → List PfcpMsg
unfolding handle_receive_message_cb
handed [] st = []
handed (m ∷ ms) st = elim (handle_receive_message_cb m st) [
  | none ↦ []
  | some (st', none) ↦ handed ms st'
  | some (st', some _) ↦ m ∷ handed ms st'
]

-- Those with the sequence number, less the refusals of the protocol's version.
abbrev pub counts : ℕ → PfcpMsg → Bool
counts seq m = get_sequence_number m == seq && not (get_message_type m == 11)

unfoldable pub of_number : ℕ → List PfcpMsg → List PfcpMsg
of_number seq [] = []
of_number seq (m ∷ ms) = let rest = of_number seq ms in if counts seq m then m ∷ rest else rest

-- What is pending for a request of type `initial`: nothing came yet, or its response.
abbrev pub IsWaiting : ℕ → Option PfcpProcedure → Type 0
IsWaiting initial none = ⊥
IsWaiting initial (some p) = (p.initial_msg_type ≡ initial) × (p.triggered_msg_type ≡ 0)

abbrev pub IsAnswered : ℕ → Option PfcpProcedure → Type 0
IsAnswered initial none = ⊥
IsAnswered initial (some p) = p.triggered_msg_type ≡ initial + 1

pub check_request : (i t : ℕ) → is_request i ≡ true → check_response_type i t ≡ (t == i + 1)
unfolding check_response_type
check_request i t e = rw e refl

pub request-no_response : (i : ℕ) → is_request i ≡ true → is_request (i + 1) ≡ false
unfolding is_request
request-no_response i e = ground arith

pub check_answered : (i t : ℕ) → is_request i ≡ true → check_response_type (i + 1) t ≡ (t == 11)
unfolding check_response_type
check_answered i t e = rw (request-no_response i e) refl

-- Messages with other numbers leave the procedure alone.
pub Kept : (Option PfcpProcedure → Type 0) → ℕ → Option (PfcpL4Stack × Option ℕ) → Type 0
Kept P seq none = Unit
Kept P seq (some (st, _)) = P (find seq st.pending_procedures)

pub opened-Kept :
    (P : Option PfcpProcedure → Type 0) (seq : ℕ) (m : PfcpMsg) (st : PfcpL4Stack)
    → (o : Option (ℕ × UintGenerator)) → seq ≢ get_sequence_number m
    → P (find seq st.pending_procedures)
    → Kept P seq (opened m st o)
unfolding opened Kept
opened-Kept P seq m st none ne h = tt
opened-Kept P seq m st (some (trxn_id, g)) ne h =
    insert-both P seq (get_sequence_number m) _ st.pending_procedures
      (λ same absent. absurd (ne same)) h

pub proceed-Kept :
    (P : Option PfcpProcedure → Type 0) (seq : ℕ) (b : Bool) (m : PfcpMsg) (p : PfcpProcedure)
    → (st : PfcpL4Stack) → seq ≢ get_sequence_number m
    → P (find seq st.pending_procedures)
    → P (find seq (proceed b m p st).0.pending_procedures)
unfolding proceed
proceed-Kept P seq false m p st ne h = h
proceed-Kept P seq true m p st ne h =
    assign-both P seq (get_sequence_number m) _ st.pending_procedures (λ same. absurd (ne same))
      (λ other. h)

pub receive-Kept :
    (P : Option PfcpProcedure → Type 0) (seq : ℕ) (m : PfcpMsg) (st : PfcpL4Stack)
    → seq ≢ get_sequence_number m
    → P (find seq st.pending_procedures)
    → Kept P seq (handle_receive_message_cb m st)
unfolding handle_receive_message_cb open_procedure continue_procedure Kept
receive-Kept P seq m st ne h =
    elim (Option-cases (find (get_sequence_number m) st.pending_procedures)) [
      | inl absent ↦
          rw (handle_receive_message_cb, absent)
            (if-both (Kept P seq) (check_request_type (get_message_type m))
              (opened-Kept P seq m st (get_uid 64 st.trxn_ids) ne h) h)
      | inr (p, found) ↦
          rw (handle_receive_message_cb, found)
            (proceed-Kept P seq (check_response_type (checked_type p) (get_message_type m)) m p st
              ne h)
    ]

-- What is handed on is not counted.
pub Silent : ℕ → PfcpMsg → Option (PfcpL4Stack × Option ℕ) → Type 0
Silent seq m none = Unit
Silent seq m (some (_, none)) = Unit
Silent seq m (some (_, some _)) = counts seq m ≡ false

pub uncounted : (seq : ℕ) (m : PfcpMsg) → seq ≢ get_sequence_number m → counts seq m ≡ false
uncounted seq m ne = ground arith

pub Silent-uncounted :
    (seq : ℕ) (m : PfcpMsg) (o : Option (PfcpL4Stack × Option ℕ))
    → counts seq m ≡ false
    → Silent seq m o
unfolding Silent
Silent-uncounted seq m none e = tt
Silent-uncounted seq m (some (_, none)) e = tt
Silent-uncounted seq m (some (_, some _)) e = e

pub proceed-IsAnswered :
    (i : ℕ) (b : Bool) (m : PfcpMsg) (p : PfcpProcedure) (st : PfcpL4Stack)
    → find (get_sequence_number m) st.pending_procedures ≡ some p
    → p.triggered_msg_type ≡ i + 1
    → ((b ≡ true) → get_message_type m ≡ 11)
    → Kept (IsAnswered i) (get_sequence_number m) (some (proceed b m p st))
      × Silent (get_sequence_number m) m (some (proceed b m p st))
unfolding proceed Kept Silent
proceed-IsAnswered i false m p st found e late = (subst (IsAnswered i) (sym found) e, tt)
proceed-IsAnswered i true m p st found e late =
    let version = late refl in
    (
      assign-both (IsAnswered i) (get_sequence_number m) (get_sequence_number m) _
          st.pending_procedures (λ same. ground (arith, e)) (λ ne. absurd (ne refl)),
      ground (arith, version),
    )

pub received :
    (m : PfcpMsg) (p : PfcpProcedure) (st : PfcpL4Stack)
    → find (get_sequence_number m) st.pending_procedures ≡ some p
    → handle_receive_message_cb m st
      ≡ some (proceed (check_response_type (checked_type p) (get_message_type m)) m p st)
unfolding handle_receive_message_cb continue_procedure
received m p st found = rw (handle_receive_message_cb, found) refl

pub checked_answered :
    (i : ℕ) (p : PfcpProcedure) → p.triggered_msg_type ≡ i + 1 → checked_type p ≡ i + 1
unfolding checked_type
checked_answered i p e = ground (arith, e)

pub receive-IsAnswered :
    (i seq : ℕ) (m : PfcpMsg) (st : PfcpL4Stack)
    → is_request i ≡ true
    → IsAnswered i (find seq st.pending_procedures)
    → Kept (IsAnswered i) seq (handle_receive_message_cb m st)
      × Silent seq m (handle_receive_message_cb m st)
receive-IsAnswered i seq m st request h = elim (eq-or_ne seq (get_sequence_number m)) [
  | inr ne ↦
      (receive-Kept (IsAnswered i) seq m st ne h, Silent-uncounted seq m _ (uncounted seq m ne))
  | inl same ↦ elim (Option-cases (find (get_sequence_number m) st.pending_procedures)) [
    | inl absent ↦
        absurd (subst (IsAnswered i) (ap (λ n. find n st.pending_procedures) same ∙ absent) h)
    | inr (p, found) ↦
        let e : p.triggered_msg_type ≡ i + 1 =
          subst (IsAnswered i) (ap (λ n. find n st.pending_procedures) same ∙ found) h in
        let t = get_message_type m in
        let late = λ (c : check_response_type (checked_type p) t ≡ true). (==_iff t 11).0 (
          sym (check_answered i t request)
          ∙ ap (λ x. check_response_type x t) (sym (checked_answered i p e))
          ∙ c) in
        subst
          (λ n.
            Kept (IsAnswered i) n (handle_receive_message_cb m st)
            × Silent n m (handle_receive_message_cb m st))
          (sym same)
          (subst
            (λ o.
              Kept (IsAnswered i) (get_sequence_number m) o × Silent (get_sequence_number m) m o)
            (sym (received m p st found)) (proceed-IsAnswered i _ m p st found e late))
  ]
]

pub handed_quiet :
    (i seq : ℕ) (m : PfcpMsg) (ms : List PfcpMsg) (o : Option (PfcpL4Stack × Option ℕ))
    → Kept (IsAnswered i) seq o
    → Silent seq m o
    → ((st : PfcpL4Stack)
        → IsAnswered i (find seq st.pending_procedures)
        → of_number seq (handed ms st) ≡ [])
    → of_number seq (elim o [
      | none ↦ []
      | some (st', none) ↦ handed ms st'
      | some (st', some _) ↦ m ∷ handed ms st'
    ])
      ≡ []
unfolding of_number Kept Silent
handed_quiet i seq m ms none k q rest = refl
handed_quiet i seq m ms (some (st, none)) k q rest = rest st k
handed_quiet i seq m ms (some (st, some _)) k q rest = rw q (rest st k)

pub handed_after :
    (i seq : ℕ) (ms : List PfcpMsg) (st : PfcpL4Stack)
    → is_request i ≡ true
    → IsAnswered i (find seq st.pending_procedures)
    → of_number seq (handed ms st) ≡ []
unfolding handed of_number
handed_after i seq [] st request h = refl
handed_after i seq (m ∷ ms) st request h =
    let (kept, silent) = receive-IsAnswered i seq m st request h in
    handed_quiet i seq m ms (handle_receive_message_cb m st) kept silent
      (λ st' h'. handed_after i seq ms st' request h')
