-- ===== src/Transactions/Delivery/Responses.antt =====
-- The response to a pending request (handle_receive_message_cb).
use openair_cn_cups.Common.{
  ◌⊎◌, ap, eq-or_ne, ◌∙◌, ==_iff, sym, subst, Bool, ℕ, ◌+◌, ◌≡◌, List, [], ◌∷◌, true, false, Option,
  none, some, Option-cases, inl, inr, arith, refl, if-both,
}
use openair_cn_cups.StdMap.{find}
use openair_cn_cups.StdMap.Laws.{assign-both}
use openair_cn_cups.Transactions.{
  PfcpMsg, get_message_type, get_sequence_number, PfcpProcedure, PfcpL4Stack, is_request,
  check_response_type,
}
use openair_cn_cups.Transactions.Operations.{proceed, checked_type, handle_receive_message_cb}
use openair_cn_cups.Transactions.Delivery.{
  handed, counts, of_number, IsWaiting, IsAnswered, check_request, Kept, receive-Kept, uncounted,
  received, handed_after,
}

-- The first response: what is handed on, and what is pending afterwards.
Waits : ℕ → ℕ → PfcpMsg → Option (PfcpL4Stack × Option ℕ) → Type 0
Waits i seq m none = Unit
Waits i seq m (some (st, none)) = IsWaiting i (find seq st.pending_procedures)
Waits i seq m (some (st, some _)) =
    ((counts seq m ≡ false) × IsWaiting i (find seq st.pending_procedures))
    ⊎ ((get_message_type m ≡ i + 1) × IsAnswered i (find seq st.pending_procedures))

Waits-Kept :
    (i seq : ℕ) (m : PfcpMsg) (o : Option (PfcpL4Stack × Option ℕ))
    → counts seq m ≡ false
    → Kept (IsWaiting i) seq o
    → Waits i seq m o
unfolding Waits Kept
Waits-Kept i seq m none e k = tt
Waits-Kept i seq m (some (st, none)) e k = k
Waits-Kept i seq m (some (st, some _)) e k = inl (e, k)

proceed-Waits :
    (i : ℕ) (b : Bool) (m : PfcpMsg) (p : PfcpProcedure) (st : PfcpL4Stack)
    → find (get_sequence_number m) st.pending_procedures ≡ some p
    → IsWaiting i (some p)
    → ((b ≡ true) → get_message_type m ≡ i + 1)
    → Waits i (get_sequence_number m) m (some (proceed b m p st))
unfolding proceed Waits
proceed-Waits i false m p st found w first = subst (IsWaiting i) (sym found) w
proceed-Waits i true m p st found w first = inr (
  first refl,
  assign-both (IsAnswered i) (get_sequence_number m) (get_sequence_number m) _ st.pending_procedures
      (λ same. ground (arith, w, first refl)) (λ ne. absurd (ne refl)),
)

checked_waiting : (i : ℕ) (p : PfcpProcedure) → IsWaiting i (some p) → checked_type p ≡ i
unfolding checked_type
checked_waiting i p w = ground (arith, w)

receive-Waits :
    (i seq : ℕ) (m : PfcpMsg) (st : PfcpL4Stack)
    → is_request i ≡ true
    → IsWaiting i (find seq st.pending_procedures)
    → Waits i seq m (handle_receive_message_cb m st)
receive-Waits i seq m st request h = elim (eq-or_ne seq (get_sequence_number m)) [
  | inr ne ↦ Waits-Kept i seq m _ (uncounted seq m ne) (receive-Kept (IsWaiting i) seq m st ne h)
  | inl same ↦ elim (Option-cases (find (get_sequence_number m) st.pending_procedures)) [
    | inl absent ↦
        absurd (subst (IsWaiting i) (ap (λ n. find n st.pending_procedures) same ∙ absent) h)
    | inr (p, found) ↦
        let w : IsWaiting i (some p) =
          subst (IsWaiting i) (ap (λ n. find n st.pending_procedures) same ∙ found) h in
        let t = get_message_type m in
        let first = λ (c : check_response_type (checked_type p) t ≡ true). (==_iff t (i + 1)).0 (
          sym (check_request i t request)
          ∙ ap (λ x. check_response_type x t) (sym (checked_waiting i p w))
          ∙ c) in
        subst (λ n. Waits i n m (handle_receive_message_cb m st)) (sym same)
          (subst (Waits i (get_sequence_number m) m) (sym (received m p st found))
            (proceed-Waits i _ m p st found w first))
  ]
]

-- Nothing, or one message, of the type of the response.
abbrev pub IsOnce : ℕ → List PfcpMsg → Type 0
IsOnce i ms = (ms ≡ []) ⊎ ((m : PfcpMsg) × (ms ≡ m ∷ []) × (get_message_type m ≡ i + 1))

handed_first :
    (i seq : ℕ) (m : PfcpMsg) (ms : List PfcpMsg) (o : Option (PfcpL4Stack × Option ℕ))
    → is_request i ≡ true
    → Waits i seq m o
    → ((st : PfcpL4Stack)
        → IsWaiting i (find seq st.pending_procedures)
        → IsOnce i (of_number seq (handed ms st)))
    → IsOnce i (
        of_number seq (elim o [
          | none ↦ []
          | some (st', none) ↦ handed ms st'
          | some (st', some _) ↦ m ∷ handed ms st'
        ]))
unfolding of_number Waits
handed_first i seq m ms none request w rest = inl refl
handed_first i seq m ms (some (st, none)) request w rest = rest st w
handed_first i seq m ms (some (st, some _)) request (inl (e, w)) rest = rw e (rest st w)
handed_first i seq m ms (some (st, some _)) request (inr (type, w)) rest =
    let quiet = handed_after i seq ms st request w in
    if-both (IsOnce i) (counts seq m) (inr (m, ap (λ xs. m ∷ xs) quiet, type)) (inl quiet)

handed-IsOnce :
    (i seq : ℕ) (ms : List PfcpMsg) (st : PfcpL4Stack)
    → is_request i ≡ true
    → IsWaiting i (find seq st.pending_procedures)
    → IsOnce i (of_number seq (handed ms st))
unfolding handed of_number
handed-IsOnce i seq [] st request w = inl refl
handed-IsOnce i seq (m ∷ ms) st request w =
    handed_first i seq m ms (handle_receive_message_cb m st) request
      (receive-Waits i seq m st request w) (λ st' w'. handed-IsOnce i seq ms st' request w')

-- While a request of its own or of a peer is pending unanswered, the stack hands on, of a series of
-- messages that it receives one after the other, at most one with the number of the request, and only
-- the response to it: no response twice, and no repetition of the request. Refusals of the protocol's
-- version do not count.
pub at_most_one_response :
    (st : PfcpL4Stack) (seq : ℕ) (p : PfcpProcedure) (ms : List PfcpMsg)
    → find seq st.pending_procedures ≡ some p
    → is_request p.initial_msg_type ≡ true
    → p.triggered_msg_type ≡ 0
    → IsOnce p.initial_msg_type (of_number seq (handed ms st))
at_most_one_response st seq p ms found request untriggered =
    handed-IsOnce p.initial_msg_type seq ms st request
      (subst (IsWaiting p.initial_msg_type) (sym found) (refl, untriggered))
