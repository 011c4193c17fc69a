-- ===== src/Associations/Runs.antt =====
-- The associations as a state machine: what the Sx task and the switch call.
use openair_cn_cups.Common.{[], ℕ, ◌≤◌, List, Bool}
use openair_cn_cups.Switch.HashMap.{HashMap}
use openair_cn_cups.Associations.{
  NodeId, PfcpAssociations, at, remove_peer_candidate_node, add_peer_candidate_node,
  add_association, initiate_heartbeat_request, timeout_heartbeat_request,
  handle_receive_heartbeat_response, notify_add_session, notify_del_session,
}
use openair_cn_cups.Associations.Retries.{
  AreFew, at-IsFew, add_peer_candidate_node-AreFew, associated-AreFew, initiate-AreFew,
  time_out-AreFew, respond-AreFew, notify_add_session-AreFew, forget-AreFew,
}

module _ {folly : HashMap} (entries : folly.Map ℕ → List ℕ) (hash : NodeId → ℕ)
    (generate_trxn_id : ℕ → ℕ) where
  pub data Step : PfcpAssociations folly → PfcpAssociations folly → Type 0 where
    adds_candidate :
        (n : NodeId) (st : PfcpAssociations folly)
        → Step st (add_peer_candidate_node entries hash generate_trxn_id n st)
    associates :
        (n : NodeId) (time_stamp : ℕ) (features : Bool × ℕ) (st : PfcpAssociations folly)
        → Step st (add_association entries hash generate_trxn_id n time_stamp features st).1
    initiates :
        (hash_node_id : ℕ) (st : PfcpAssociations folly)
        → Step st (initiate_heartbeat_request entries hash generate_trxn_id hash_node_id st)
    times_out :
        (hash_node_id : ℕ) (st : PfcpAssociations folly)
        → Step st (timeout_heartbeat_request entries hash generate_trxn_id hash_node_id st)
    is_answered :
        (trxn_id : ℕ) (st : PfcpAssociations folly)
        → Step st (handle_receive_heartbeat_response entries hash generate_trxn_id trxn_id st)
    adds_session :
        (n : NodeId) (fseid : ℕ) (st : PfcpAssociations folly)
        → Step st (notify_add_session entries hash generate_trxn_id n fseid st)
    deletes_session :
        (fseid : ℕ) (st : PfcpAssociations folly)
        → Step st (notify_del_session entries hash generate_trxn_id fseid st)

  abbrev pub initial : ℕ → PfcpAssociations folly
  initial timer_id = record {
    heap = [];
    pending_associations = [];
    associations = folly.empty;
    timer_id = timer_id;
    trxns = 0;
    calls = [];
  }

  pub data IsReachable : PfcpAssociations folly → Type 0 where
    starts : (timer_id : ℕ) → IsReachable (initial timer_id)
    steps : (st st' : PfcpAssociations folly) → IsReachable st → Step st st' → IsReachable st'

  Step-AreFew :
      (st st' : PfcpAssociations folly)
      → Step st st'
      → AreFew entries hash generate_trxn_id st
      → AreFew entries hash generate_trxn_id st'
  unfolding add_association initiate_heartbeat_request timeout_heartbeat_request
      handle_receive_heartbeat_response notify_del_session
  Step-AreFew st st' (adds_candidate n _) h =
      add_peer_candidate_node-AreFew entries hash generate_trxn_id n st h
  Step-AreFew st st' (associates n time_stamp features _) h =
      associated-AreFew entries hash generate_trxn_id n time_stamp features st
        (remove_peer_candidate_node st.heap n st.pending_associations) h
  Step-AreFew st st' (initiates hash_node_id _) h =
      initiate-AreFew entries hash generate_trxn_id hash_node_id (entries st.associations) st h
  Step-AreFew st st' (times_out hash_node_id _) h =
      time_out-AreFew entries hash generate_trxn_id hash_node_id (entries st.associations) st h
  Step-AreFew st st' (is_answered trxn_id _) h =
      respond-AreFew entries hash generate_trxn_id trxn_id (entries st.associations) st h
  Step-AreFew st st' (adds_session n fseid _) h =
      notify_add_session-AreFew entries hash generate_trxn_id n fseid st h
  Step-AreFew st st' (deletes_session fseid _) h =
      forget-AreFew entries hash generate_trxn_id fseid (entries st.associations) st h

  IsReachable-AreFew :
      (st : PfcpAssociations folly) → IsReachable st → AreFew entries hash generate_trxn_id st
  IsReachable-AreFew st (starts timer_id) = tt
  IsReachable-AreFew st (steps before _ r s) = Step-AreFew before st s (IsReachable-AreFew before r)

  -- In every state that the calls of the Sx task and of the switch lead to, no association has more
  -- than five retries of its heartbeat.
  pub heartbeats_bounded :
      (st : PfcpAssociations folly) (p : ℕ)
      → IsReachable st
      → (at st.heap p).num_retries_timer_heartbeat ≤ 5
  heartbeats_bounded st p r = at-IsFew st.heap p (IsReachable-AreFew st r)
