-- ===== src/Pfcp/Message/Returns.antt =====
-- The loops over the elements of a message end (pfcp_grouped_ie::load_from, pfcp_msg::load_from).
use openair_cn_cups.Common.{
  ℕ, zero, suc, ◌+◌, ◌-◌, ◌%◌, ◌^◌, ◌<◌, ◌≤◌, ◌≡◌, ◌==◌, ltb, refl, List, [], ◌∷◌, Bool, true,
  false, Option, none, some, Result, ok, err, arith, length, if◌then◌else◌,
}
use openair_cn_cups.Common.Streams.{Within}
use openair_cn_cups.Pfcp.Header
use openair_cn_cups.Pfcp.Header.{Header}
use openair_cn_cups.Pfcp.Tlv
use openair_cn_cups.Pfcp.Tlv.{Tlv, no_tlv}
use openair_cn_cups.Pfcp.Message
use openair_cn_cups.Pfcp.Message.{
  LeafCodec, Ie, Ies, leaf, grouped, next, no_ies, Answer, and_then, is_grouped, counted, of_type,
  new_ie, loaded, load_ies, new_pfcp_ie_from_stream, checked, received, load_rounds,
  check_msg_length, Message,
}

-- The reader came to an end, and left no more than `n` bytes.
abbrev pub Returned : {A : Type 0} → ℕ → Answer A → Type 0
Returned n none = ⊥
Returned n (some r) = Within n r

Returned-le : {A : Type 0} → (n m : ℕ) (a : Answer A) → n ≤ m → Returned n a → Returned m a
Returned-le n m none le h = h
Returned-le n m (some (err fault)) le h = tt
Returned-le n m (some (ok (a, s))) le h = omega (arith, le, h)

and_then-Returned :
    {A B : Type 0}
    → (n m : ℕ) (a : Answer A) (go_on : A → List ℕ → Answer B) → Returned n a
    → ((x : A) (s : List ℕ) → length s ≤ n → Returned m (go_on x s))
    → Returned m (and_then a go_on)
and_then-Returned n m none go_on h k = h
and_then-Returned n m (some (err fault)) go_on h k = tt
and_then-Returned n m (some (ok (x, s))) go_on h k = k x s h

if-Returned :
    {A : Type 0}
    → (b : Bool) (n : ℕ) (x y : Answer A) → Returned n x
    → Returned n y
    → Returned n (if b then x else y)
if-Returned true n x y hx hy = hx
if-Returned false n x y hx hy = hy

-- An element takes bytes of the stream.
abbrev Read : {A : Type 0} → ℕ → Answer (Option A) → Type 0
Read n none = ⊥
Read n (some (err fault)) = Unit
Read n (some (ok (none, s))) = length s ≤ n
Read n (some (ok (some _, s))) = length s < n

Returned-Read : {A : Type 0} → (n : ℕ) (a : Answer (Option A)) → Returned n a → Read (suc n) a
Returned-Read n none h = h
Returned-Read n (some (err fault)) h = tt
Returned-Read n (some (ok (none, s))) h = omega (arith, h)
Returned-Read n (some (ok (some _, s))) h = omega (arith, h)

-- No element that holds no others leaves more bytes than it found.
abbrev pub Shrinks : {Leaf : Type 0} → LeafCodec Leaf → Type 0
Shrinks c = (t : Tlv) (s : List ℕ) → Within (length s) (c.load_from t s)

module _ {Leaf : Type 0} (c : LeafCodec Leaf) (shrinks : Shrinks c) where
  of_type-Returned :
      (load : ℕ → List ℕ → Answer (Ies Leaf)) (t : Tlv) (n : ℕ) (s : List ℕ)
      → ((rest : ℕ) (s : List ℕ) → length s ≤ n → Returned n (load rest s))
      → length s ≤ n
      → Returned n (of_type c load t s)
  of_type-Returned load t n s loads h = if-Returned (t.length == 0) n _ _ h (
      if-Returned (is_grouped t.type) n _ _
        (and_then-Returned n n (load t.length s) _ (loads t.length s h) (λ ies s' h'. h'))
        (if-Returned (c.knows t.type) n _ _
          (and_then-Returned n n (some (c.load_from t s)) _
            (Returned-le (length s) n (some (c.load_from t s)) h (shrinks t s)) (λ l s' h'. h'))
          h))

  new_ie-Read :
      (load : ℕ → List ℕ → Answer (Ies Leaf)) (s : List ℕ)
      → ((rest : ℕ) (s' : List ℕ) → length s' < length s → Returned (length s') (load rest s'))
      → Read (length s) (new_ie c load s)
  unfolding new_ie
  new_ie-Read load [] loads = rw Tlv.load_from-nil (omega arith)
  new_ie-Read load (b ∷ s) loads = Returned-Read (length s) _ (
      and_then-Returned (length s) (length s) (some (Tlv.load_from no_tlv (b ∷ s))) (of_type c load)
        (Tlv.load_from-Within no_tlv (length s) (b ∷ s) (omega arith))
        (λ t s' h.
          of_type-Returned load t (length s) s'
            (λ rest u le. Returned-le (length u) (length s) _ le (loads rest u (omega (arith, le))))
            h))

  loaded-Returned :
      (go_on : ℕ → List ℕ → Answer (Ies Leaf)) (remaining n : ℕ) (a : Answer (Option (Ie Leaf)))
      → Read n a
      → ((rest : ℕ) (s : List ℕ) → length s < n → Returned (length s) (go_on rest s))
      → Returned n (and_then a (loaded c go_on remaining))
  loaded-Returned go_on remaining n none h loads = h
  loaded-Returned go_on remaining n (some (err fault)) h loads = tt
  loaded-Returned go_on remaining n (some (ok (none, s))) h loads = tt
  loaded-Returned go_on remaining n (some (ok (some ie, s))) h loads =
      and_then-Returned (length s) n _ _ (loads (remaining - counted c ie) s h)
        (λ ies s' h'. omega (arith, h, h'))

  load_ies-Returned :
      (fuel remaining : ℕ) (s : List ℕ)
      → length s < fuel
      → Returned (length s) (load_ies c fuel remaining s)
  unfolding load_ies
  load_ies-Returned zero remaining s h = omega (arith, h)
  load_ies-Returned (suc fuel) remaining s h =
      if-Returned (remaining == 0) (length s) _ _ (omega arith) (
        loaded-Returned (load_ies c fuel) remaining (length s) (new_ie c (load_ies c fuel) s)
          (new_ie-Read (load_ies c fuel) s
            (λ rest s' lt. load_ies-Returned fuel rest s' (omega (arith, lt, h))))
          (λ rest s' lt. load_ies-Returned fuel rest s' (omega (arith, lt, h))))

  stream-Read : (s : List ℕ) → Read (length s) (new_pfcp_ie_from_stream c s)
  unfolding new_pfcp_ie_from_stream
  stream-Read s =
      new_ie-Read (load_ies c (suc (length s))) s
        (λ rest s' lt. load_ies-Returned (suc (length s)) rest s' (omega (arith, lt)))

  received-Returned :
      (go_on : ℕ → List ℕ → Answer (Ies Leaf)) (h : Header) (total n : ℕ)
      → (a : Answer (Option (Ie Leaf))) → Read n a
      → ((total : ℕ) (s : List ℕ) → length s < n → Returned (length s) (go_on total s))
      → Returned n (and_then a (received c go_on h total))
  received-Returned go_on h total n none r loads = r
  received-Returned go_on h total n (some (err fault)) r loads = tt
  received-Returned go_on h total n (some (ok (none, s))) r loads =
      if-Returned (total == check_msg_length h) n _ _ r tt
  received-Returned go_on h total n (some (ok (some ie, s))) r loads =
      let total' = (total + counted c ie) % 2 ^ 16 in
      and_then-Returned (length s) n _ _
        (if-Returned (ltb total' (check_msg_length h)) (length s) _ _ (loads total' s r)
          (if-Returned (total' == check_msg_length h) (length s) _ _ (omega arith) tt))
        (λ ies s' le. omega (arith, r, le))

  load_rounds-Returned :
      (fuel : ℕ) (h : Header) (total : ℕ) (s : List ℕ)
      → length s < fuel
      → Returned (length s) (load_rounds c fuel h total s)
  unfolding load_rounds
  load_rounds-Returned zero h total s lt = omega (arith, lt)
  load_rounds-Returned (suc fuel) h total s lt =
      received-Returned (load_rounds c fuel h) h total (length s) (new_pfcp_ie_from_stream c s)
        (stream-Read s)
        (λ total s' less. load_rounds-Returned fuel h total s' (omega (arith, less, lt)))

  message_of : Header → Ies Leaf → List ℕ → Answer (Message Leaf)
  message_of h ies s = some (ok (record { header = h; ies = ies }, s))

  loaded_ends :
      (h : Header) (n : ℕ) (a : Answer (Ies Leaf))
      → Returned n a
      → (r : Result (Message Leaf × List ℕ)) × (and_then a (message_of h) ≡ some r)
  unfolding message_of
  loaded_ends h n none e = absurd e
  loaded_ends h n (some (err fault)) e = (err fault, refl)
  loaded_ends h n (some (ok (ies, s))) e = (ok (record { header = h; ies = ies }, s), refl)

  header_ends :
      (r : Result (Header × List ℕ))
      → (answer : Result (Message Leaf × List ℕ)) × (and_then
            (some r)
            (λ h s. and_then (load_rounds c (suc (length s)) h 0 s) (message_of h))
          ≡ some answer)
  header_ends (err fault) = (err fault, refl)
  header_ends (ok (h, s)) =
      loaded_ends h (length s) (load_rounds c (suc (length s)) h 0 s)
        (load_rounds-Returned (suc (length s)) h 0 s (omega arith))

  -- Whatever bytes come in, whole messages or cut off anywhere, and whatever the memory held, the
  -- reading of a message comes to an end, with a message or a refusal, when no element that holds no
  -- others leaves more bytes than it found.
  pub load_from_returns :
      (sn : ℕ) (s : List ℕ)
      → (r : Result (Message Leaf × List ℕ)) × (Message.load_from c sn s ≡ some r)
  unfolding Message.load_from message_of
  load_from_returns sn s = header_ends (Header.load_from sn s)
