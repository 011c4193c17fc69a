-- ===== src/Associations/Tests.antt =====
-- One control-plane node, on concrete runs; the map is a function, of which the loops see key 7.
use openair_cn_cups.Common.{
  ℕ, ◌≤◌, ◌≡◌, refl, List, [], ◌∷◌, Bool, true, false, Option, none, some, ◌+◌,
}
use openair_cn_cups.Switch.FunctionMap.{function_map, function_map-IsHashMap}
use openair_cn_cups.Associations.{
  NodeId, PfcpAssociations, new_association, at, remove_pfcp_session, add_peer_candidate_node,
  add_association, initiate_heartbeat_request, timeout_heartbeat_request, time_out, start_timer,
  send_heartbeat_request, initiate, remove_peer_candidate_node,
}
use openair_cn_cups.Associations.Runs.{
  initial, starts, steps, adds_candidate, associates, initiates, times_out, heartbeats_bounded,
}
use openair_cn_cups.Associations.Silence.{silence_ends_association}

abbrev entries : (ℕ → Option ℕ) → List ℕ
entries m = elim (m 7) [ none ↦ [] | some p ↦ p ∷ [] ]

abbrev hash : NodeId → ℕ
hash n = n.address

abbrev next_trxn : ℕ → ℕ
next_trxn n = n + 1

abbrev node : NodeId
node = record { node_id_type = 0; address = 7 }

abbrev candidate : PfcpAssociations function_map
candidate = add_peer_candidate_node entries hash next_trxn node (initial entries hash next_trxn 0)

abbrev associated : PfcpAssociations function_map
associated = (add_association entries hash next_trxn node 99 (false, 0) candidate).1

abbrev initiated : PfcpAssociations function_map
initiated = initiate_heartbeat_request entries hash next_trxn 7 associated

abbrev repeated : PfcpAssociations function_map
repeated = timeout_heartbeat_request entries hash next_trxn 7 initiated

repeated_once : (at repeated.heap 0).num_retries_timer_heartbeat ≡ 1
unfolding add_peer_candidate_node add_association initiate_heartbeat_request
    timeout_heartbeat_request time_out initiate start_timer send_heartbeat_request
    remove_peer_candidate_node at
repeated_once = refl

heartbeats_bounded_example : (at repeated.heap 0).num_retries_timer_heartbeat ≤ 5
heartbeats_bounded_example = heartbeats_bounded entries hash next_trxn repeated 0 (
    steps initiated repeated
      (steps associated initiated
        (steps candidate associated
          (steps (initial entries hash next_trxn 0) candidate (starts 0)
            (adds_candidate node (initial entries hash next_trxn 0)))
          (associates node 99 (false, 0) candidate))
        (initiates 7 associated))
      (times_out 7 initiated))

-- A node that has not answered five retries, with two sessions.
abbrev silent : PfcpAssociations function_map
silent = record {
  heap =
      record (new_association node 7) { sessions = 11 ∷ 12 ∷ []; num_retries_timer_heartbeat = 5 }
      ∷ [];
  pending_associations = [];
  associations = function_map.insert 7 0 function_map.empty;
  timer_id = 6;
  trxns = 6;
  calls = [];
}

silence_ends_association_example :
    (r : PfcpAssociations function_map) × (timeout_heartbeat_request entries hash next_trxn 7 silent
      ≡ r)
    × (function_map.find 7 r.associations ≡ none)
    × (r.calls ≡ remove_pfcp_session 11 ∷ remove_pfcp_session 12 ∷ [])
    × ((time_stamp : ℕ) (features : Bool × ℕ)
        → (add_association entries hash next_trxn node time_stamp features r).0 ≡ true)
unfolding at
silence_ends_association_example =
    silence_ends_association entries hash next_trxn silent 0 [] [] function_map-IsHashMap refl tt
      refl
