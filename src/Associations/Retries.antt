-- ===== src/Associations/Retries.antt =====
-- How often a heartbeat is sent again (timeout_heartbeat_request).
use openair_cn_cups.Common.{
  ℕ, zero, suc, ◌+◌, ◌≤◌, ◌≡◌, ◌==◌, refl, sym, arith, List, [], ◌∷◌, Option, none, some, Bool,
  true, false, not, ◌&&◌, All, All-set, All-append, Bool-cases, inl, inr, if-both, if◌then◌else◌,
}
use openair_cn_cups.Uid
use openair_cn_cups.Switch.HashMap.{HashMap}
use openair_cn_cups.Associations.{
  NodeId, PfcpAssociation, PfcpAssociations, new_association, at, write, start_timer,
  add_peer_candidate_node, associated, send_heartbeat_request, heartbeat, is_of, initiate,
  del_sessions, give_up, retries_left, time_out, respond, notify_add_session, forget, Purpose, key,
  call, timer_remove, trigger_heartbeat, timeout_heartbeat, get_association, has_session,
}

abbrev pub IsFew : PfcpAssociation → Type 0
IsFew a = a.num_retries_timer_heartbeat ≤ 5

pub at-IsFew : (heap : List PfcpAssociation) (p : ℕ) → All IsFew heap → IsFew (at heap p)
unfolding at
at-IsFew [] p h = omega arith
at-IsFew (a ∷ heap) zero h = h.0
at-IsFew (a ∷ heap) (suc p) h = at-IsFew heap p h.1

module _ {folly : HashMap} (entries : folly.Map ℕ → List ℕ) (hash : NodeId → ℕ)
    (generate_trxn_id : ℕ → ℕ) where
  abbrev pub AreFew : PfcpAssociations folly → Type 0
  AreFew st = All IsFew st.heap

  start_timer-AreFew :
      (purpose : Purpose) (p : ℕ) (st : PfcpAssociations folly)
      → AreFew st
      → AreFew (start_timer entries hash generate_trxn_id purpose p st)
  unfolding start_timer
  start_timer-AreFew purpose p st h = All-set IsFew st.heap p _ (at-IsFew st.heap p h) h

  pub add_peer_candidate_node-AreFew :
      (n : NodeId) (st : PfcpAssociations folly)
      → AreFew st
      → AreFew (add_peer_candidate_node entries hash generate_trxn_id n st)
  unfolding add_peer_candidate_node
  add_peer_candidate_node-AreFew n st h =
      All-append IsFew st.heap (new_association n (hash n) ∷ []) h (omega arith)

  pub associated-AreFew :
      (n : NodeId) (time_stamp : ℕ) (features : Bool × ℕ) (st : PfcpAssociations folly)
      → (o : Option (ℕ × List ℕ)) → AreFew st
      → AreFew (associated entries hash generate_trxn_id n time_stamp features st o).1
  associated-AreFew n time_stamp features st none h = h
  associated-AreFew n time_stamp features st (some (p, rest)) h =
      start_timer-AreFew _ p _ (All-set IsFew st.heap p _ (at-IsFew st.heap p h) h)

  send_heartbeat_request-AreFew :
      (p : ℕ) (st : PfcpAssociations folly)
      → AreFew st
      → AreFew (send_heartbeat_request entries hash generate_trxn_id p st)
  unfolding send_heartbeat_request
  send_heartbeat_request-AreFew p st h =
      let timed = start_timer-AreFew timeout_heartbeat p st h in
      if-both AreFew ((at st.heap p).node_id.node_id_type == 0)
        (All-set IsFew _ p _ (at-IsFew _ p timed) timed) h

  heartbeat-AreFew :
      (retries p : ℕ) (st : PfcpAssociations folly)
      → retries ≤ 5
      → AreFew st
      → AreFew (heartbeat entries hash generate_trxn_id retries p st)
  heartbeat-AreFew retries p st few h =
      send_heartbeat_request-AreFew p _ (All-set IsFew st.heap p _ few h)

  pub initiate-AreFew :
      (hash_node_id : ℕ) (ps : List ℕ) (st : PfcpAssociations folly)
      → AreFew st
      → AreFew (initiate entries hash generate_trxn_id hash_node_id ps st)
  unfolding initiate
  initiate-AreFew hash_node_id [] st h = h
  initiate-AreFew hash_node_id (p ∷ ps) st h = initiate-AreFew hash_node_id ps _ (
      if-both AreFew (is_of entries hash generate_trxn_id hash_node_id p st)
        (heartbeat-AreFew 0 p st (omega arith) h) h)

  give_up-AreFew :
      (p : ℕ) (st : PfcpAssociations folly)
      → AreFew st
      → AreFew (give_up entries hash generate_trxn_id p st)
  unfolding give_up del_sessions
  give_up-AreFew p st h =
      let a = at st.heap p in
      let cleared = del_sessions entries hash generate_trxn_id p st in
      add_peer_candidate_node-AreFew a.node_id
        (record cleared { associations = folly.erase (key a.hash_node_id) cleared.associations })
        (All-set IsFew st.heap p (record a { sessions = [] }) (at-IsFew st.heap p h) h)

  -- A retry is sent only while fewer than five were.
  retried-AreFew :
      (hash_node_id p : ℕ) (st : PfcpAssociations folly) (mine left : Bool)
      → AreFew st
      → retries_left entries hash generate_trxn_id p st ≡ left
      → (mine && not left) ≡ false
      → AreFew (
          if mine
          then heartbeat entries hash generate_trxn_id
              ((at st.heap p).num_retries_timer_heartbeat + 1)
              p
              st
          else st)
  retried-AreFew hash_node_id p st false left h e goes_on = h
  retried-AreFew hash_node_id p st true false h e goes_on = absurd (cc (sym goes_on))
  retried-AreFew hash_node_id p st true true h e goes_on =
      heartbeat-AreFew _ p st (ground (arith, e)) h

  pub time_out-AreFew :
      (hash_node_id : ℕ) (ps : List ℕ) (st : PfcpAssociations folly)
      → AreFew st
      → AreFew (time_out entries hash generate_trxn_id hash_node_id ps st)
  unfolding time_out
  time_out-AreFew hash_node_id [] st h = h
  time_out-AreFew hash_node_id (p ∷ ps) st h =
      let mine = is_of entries hash generate_trxn_id hash_node_id p st in
      let left = retries_left entries hash generate_trxn_id p st in
      elim (Bool-cases (mine && not left)) [
        | inl stops ↦ rw stops (give_up-AreFew p st h)
        | inr goes_on ↦ rw goes_on (
            time_out-AreFew hash_node_id ps _
              (retried-AreFew hash_node_id p st mine left h refl goes_on))
      ]

  pub respond-AreFew :
      (trxn_id : ℕ) (ps : List ℕ) (st : PfcpAssociations folly)
      → AreFew st
      → AreFew (respond entries hash generate_trxn_id trxn_id ps st)
  unfolding respond
  respond-AreFew trxn_id [] st h = h
  respond-AreFew trxn_id (p ∷ ps) st h =
      if-both AreFew ((at st.heap p).trxn_id_heartbeat == trxn_id)
        (start_timer-AreFew trigger_heartbeat p
          (call entries hash generate_trxn_id (timer_remove (at st.heap p).timer_heartbeat) st) h)
        (respond-AreFew trxn_id ps st h)

  known-AreFew :
      (fseid : ℕ) (st : PfcpAssociations folly) (o : Option ℕ)
      → AreFew st
      → AreFew (elim o [
        | none ↦ st
        | some p ↦
            let a = at st.heap p in
            write entries hash generate_trxn_id p
              (record a { sessions = Uid.insert fseid a.sessions })
              st
      ])
  known-AreFew fseid st none h = h
  known-AreFew fseid st (some p) h = All-set IsFew st.heap p _ (at-IsFew st.heap p h) h

  pub notify_add_session-AreFew :
      (n : NodeId) (fseid : ℕ) (st : PfcpAssociations folly)
      → AreFew st
      → AreFew (notify_add_session entries hash generate_trxn_id n fseid st)
  unfolding notify_add_session
  notify_add_session-AreFew n fseid st h =
      known-AreFew fseid st (get_association entries hash generate_trxn_id n st) h

  pub forget-AreFew :
      (fseid : ℕ) (ps : List ℕ) (st : PfcpAssociations folly)
      → AreFew st
      → AreFew (forget entries hash generate_trxn_id fseid ps st)
  unfolding forget
  forget-AreFew fseid [] st h = h
  forget-AreFew fseid (p ∷ ps) st h =
      if-both AreFew (has_session fseid (at st.heap p))
        (All-set IsFew st.heap p _ (at-IsFew st.heap p h) h) (forget-AreFew fseid ps st h)
