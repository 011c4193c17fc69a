-- ===== src/Associations/Silence.antt =====
-- What becomes of a node that does not answer (timeout_heartbeat_request).
use openair_cn_cups.Common.{
  ℕ, ◌≡◌, ◌≢◌, ==_iff, ==_ne, refl, ap, ◌∙◌, arith, List, [], ◌∷◌, ◌++◌, Option, none, some, Bool,
  true, false, All, map, ltb, length, get_elem?-append_length, Bool-cases, inl, inr,
}
use openair_cn_cups.Switch.HashMap.{HashMap, IsHashMap}
use openair_cn_cups.Associations.{
  NodeId, same_node, PfcpAssociation, PfcpAssociations, others, remove_pfcp_session,
  new_association, at, key, kept, remove_peer_candidate_node, add_peer_candidate_node,
  add_association, del_sessions, give_up, time_out, timeout_heartbeat_request,
}

same_node_refl : (n : NodeId) → same_node n n ≡ true
same_node_refl n =
    rw ((==_iff n.node_id_type n.node_id_type).1 refl, (==_iff n.address n.address).1 refl) refl

kept-some :
    (q : ℕ) (o : Option (ℕ × List ℕ))
    → (r : ℕ × List ℕ) × (o ≡ some r)
    → (r : ℕ × List ℕ) × (kept q o ≡ some r)
kept-some q o ((p, rest), e) = ((p, q ∷ rest), rw e refl)

-- A node that stands last among the candidates is found, if not one before it.
last_is_found :
    (heap : List PfcpAssociation) (n : NodeId) (qs : List ℕ) (q : ℕ)
    → same_node (at heap q).node_id n ≡ true
    → (r : ℕ × List ℕ) × (remove_peer_candidate_node heap n (qs ++ (q ∷ [])) ≡ some r)
unfolding remove_peer_candidate_node
last_is_found heap n [] q same = ((q, []), rw same refl)
last_is_found heap n (x ∷ xs) q same = elim (Bool-cases (same_node (at heap x).node_id n)) [
  | inl here ↦ ((x, xs ++ (q ∷ [])), rw here refl)
  | inr away ↦ let (r, e) = kept-some x _ (last_is_found heap n xs q same) in (r, rw away e)
]

at-new :
    (heap : List PfcpAssociation) (a : PfcpAssociation) → at (heap ++ (a ∷ [])) (length heap) ≡ a
unfolding at
at-new heap a = rw (at, get_elem?-append_length heap a) refl

module _ {folly : HashMap} (entries : folly.Map ℕ → List ℕ) (hash : NodeId → ℕ)
    (generate_trxn_id : ℕ → ℕ) where
  time_out-skips :
      (hash_node_id : ℕ) (front ps : List ℕ) (st : PfcpAssociations folly)
      → All (λ q. (at st.heap q).hash_node_id ≢ hash_node_id) front
      → time_out entries hash generate_trxn_id hash_node_id (front ++ ps) st
        ≡ time_out entries hash generate_trxn_id hash_node_id ps st
  unfolding time_out
  time_out-skips hash_node_id [] ps st other = refl
  time_out-skips hash_node_id (q ∷ front) ps st (ne, other) =
      rw (==_ne (at st.heap q).hash_node_id hash_node_id ne)
        (time_out-skips hash_node_id front ps st other)

  candidate_associates :
      (n : NodeId) (time_stamp : ℕ) (features : Bool × ℕ) (st : PfcpAssociations folly)
      → (add_association entries hash generate_trxn_id n time_stamp features
          (add_peer_candidate_node entries hash generate_trxn_id n st)).0
        ≡ true
  unfolding add_association add_peer_candidate_node
  candidate_associates n time_stamp features st =
      let last =
        last_is_found (st.heap ++ (new_association n (hash n) ∷ [])) n
          (others st.pending_associations
            (remove_peer_candidate_node st.heap n st.pending_associations))
          (length st.heap)
          (ap (λ (a : PfcpAssociation). same_node a.node_id n)
              (at-new st.heap (new_association n (hash n)))
            ∙ same_node_refl n) in
      rw last.1 refl

  -- When the heartbeat of a node goes unanswered after five retries, its association is gone, each of
  -- its sessions is removed from the switch, and the node can associate again. Every association that
  -- the loop comes to before it has another hash.
  pub silence_ends_association :
      (st : PfcpAssociations folly) (p : ℕ) (front back : List ℕ)
      → IsHashMap folly
      → entries st.associations ≡ front ++ (p ∷ back)
      → All (λ q. (at st.heap q).hash_node_id ≢ (at st.heap p).hash_node_id) front
      → (at st.heap p).num_retries_timer_heartbeat ≡ 5
      → (r : PfcpAssociations folly) × (timeout_heartbeat_request entries hash generate_trxn_id
            (at st.heap p).hash_node_id
            st
          ≡ r)
        × (folly.find (key (at st.heap p).hash_node_id) r.associations ≡ none)
        × (r.calls ≡ map remove_pfcp_session (at st.heap p).sessions ++ st.calls)
        × ((time_stamp : ℕ) (features : Bool × ℕ)
            → (add_association entries hash generate_trxn_id
                (at st.heap p).node_id
                time_stamp
                features
                r).0
              ≡ true)
  unfolding timeout_heartbeat_request time_out give_up add_peer_candidate_node del_sessions
  silence_ends_association st p front back laws order other spent =
      let a = at st.heap p in
      let cleared = del_sessions entries hash generate_trxn_id p st in
      let erased = record cleared {
        associations = folly.erase (key a.hash_node_id) st.associations;
      } in
      let none_left : ltb a.num_retries_timer_heartbeat 5 ≡ false = ground (arith, spent) in
      (
        add_peer_candidate_node entries hash generate_trxn_id a.node_id erased,
        ap (λ ps. time_out entries hash generate_trxn_id a.hash_node_id ps st) order
            ∙ time_out-skips a.hash_node_id front (p ∷ back) st other
            ∙ rw ((==_iff a.hash_node_id a.hash_node_id).1 refl, none_left) refl,
        laws.find-erase (key a.hash_node_id) st.associations,
        refl,
        λ time_stamp features. candidate_associates a.node_id time_stamp features erased,
      )
