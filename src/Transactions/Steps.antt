-- ===== src/Transactions/Steps.antt =====
-- The stack as a state machine: what the tasks that own it call.
use openair_cn_cups.Common.{◌%◌, ◌^◌, ◌+◌, ◌<◌, ◌≤◌, none, subst, ℕ, Bool, Option, some, ◌≡◌}
use openair_cn_cups.Uid.{UintGenerator}
use openair_cn_cups.Transactions.{PfcpMsg, PfcpL4Stack, initial}
use openair_cn_cups.Transactions.Operations.{
  send_request, send_response, handle_receive_message_cb, time_out_event,
}

pub data Step : PfcpL4Stack → PfcpL4Stack → Type 0 where
  requests :
      (dest : ℕ) (seid : Option ℕ) (m : PfcpMsg) (trxn_id : ℕ) (st : PfcpL4Stack)
      → Step st (send_request dest seid m trxn_id st).0
  responds :
      (dest : ℕ) (seid : Option ℕ) (m : PfcpMsg) (trxn_id : ℕ) (delete : Bool) (st : PfcpL4Stack)
      → Step st (send_response dest seid m trxn_id delete st)
  receives :
      (msg : PfcpMsg) (st st' : PfcpL4Stack) (delivered : Option ℕ)
      → handle_receive_message_cb msg st ≡ some (st', delivered)
      → Step st st'
  times_out :
      (timer_id : ℕ) (st st' : PfcpL4Stack) → time_out_event timer_id st ≡ some st' → Step st st'
  -- Another task of the program sets timers.
  ticks : (timer_id : ℕ) (st : PfcpL4Stack) → Step st (record st { timer_id = timer_id % 2 ^ 32 })

-- What the constructor makes, and what follows by steps.
pub data IsReachable : PfcpL4Stack → Type 0 where
  starts :
      (tv_nsec timer_id : ℕ) (trxn_ids : UintGenerator)
      → IsReachable (initial tv_nsec timer_id trxn_ids)
  steps : (st st' : PfcpL4Stack) → IsReachable st → Step st st' → IsReachable st'

-- The states before the counter of timers has come round: it never went down, and two more timers
-- have numbers.
pub data IsEarly : PfcpL4Stack → Type 0 where
  begins :
      (tv_nsec timer_id : ℕ) (trxn_ids : UintGenerator)
      → IsEarly (initial tv_nsec timer_id trxn_ids)
  follows :
      (st st' : PfcpL4Stack)
      → IsEarly st
      → Step st st'
      → st.timer_id + 2 < 2 ^ 32
      → st.timer_id ≤ st'.timer_id
      → IsEarly st'

-- A property of the stack that an operation leaves, if it ends.
abbrev pub Leaves : (PfcpL4Stack → Type 0) → Option PfcpL4Stack → Type 0
Leaves P none = Unit
Leaves P (some st) = P st

abbrev pub Delivers : (PfcpL4Stack → Type 0) → Option (PfcpL4Stack × Option ℕ) → Type 0
Delivers P none = Unit
Delivers P (some (st, _)) = P st

-- The invariant rule: what the four operations keep, every step keeps.
pub Step-keeps :
    (P : PfcpL4Stack → Type 0)
    → ((dest : ℕ) (seid : Option ℕ) (m : PfcpMsg) (trxn_id : ℕ) (st : PfcpL4Stack)
        → P st
        → P (send_request dest seid m trxn_id st).0)
    → ((dest : ℕ) (seid : Option ℕ) (m : PfcpMsg) (trxn_id : ℕ) (delete : Bool) (st : PfcpL4Stack)
        → P st
        → P (send_response dest seid m trxn_id delete st))
    → ((msg : PfcpMsg) (st : PfcpL4Stack) → P st → Delivers P (handle_receive_message_cb msg st))
    → ((timer_id : ℕ) (st : PfcpL4Stack) → P st → Leaves P (time_out_event timer_id st))
    → ((timer_id : ℕ) (st : PfcpL4Stack) → P st → P (record st { timer_id = timer_id % 2 ^ 32 }))
    → (st st' : PfcpL4Stack) → Step st st'
    → P st
    → P st'
Step-keeps P q r c t k st st' (requests dest seid m trxn_id _) h = q dest seid m trxn_id st h
Step-keeps P q r c t k st st' (responds dest seid m trxn_id delete _) h =
    r dest seid m trxn_id delete st h
Step-keeps P q r c t k st st' (receives msg _ _ _ e) h = subst (Delivers P) e (c msg st h)
Step-keeps P q r c t k st st' (times_out timer_id _ _ e) h = subst (Leaves P) e (t timer_id st h)
Step-keeps P q r c t k st st' (ticks timer_id _) h = k timer_id st h
