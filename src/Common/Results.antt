-- ===== src/Common/Results.antt =====
-- What a decoder answers: a value and the rest of the input, or the reason why it stopped.
use mathlib.Core.Bool.{Bool, true, false}

-- `bad_length` is pfcp_tlv_bad_length_exception; `msg_bad_length` is pfcp_msg_bad_length_exception.
pub data Fault : Type 0 where
  bad_length msg_bad_length : Fault

pub data Result {ℓ} (A : Type ℓ) : Type ℓ where
  err : Fault → Result A
  ok : A → Result A

-- `if (not b) throw …;`
abbrev pub require : Bool → Fault → Result (Unit {0})
require b fault = elim b [ true ↦ ok tt | false ↦ err fault ]

-- The first fault is thrown on.
infixl 5 ◌>>=◌ ◌>>◌
abbrev pub ◌>>=◌ {ℓ κ} : {A : Type ℓ} {B : Type κ} → Result A → (A → Result B) → Result B
err fault >>= then = err fault
ok a >>= then = then a

abbrev pub ◌>>◌ {ℓ} : {B : Type ℓ} → Result (Unit {0}) → Result B → Result B
first >> second = first >>= λ done. second
