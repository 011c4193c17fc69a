-- ===== src/Associations.antt =====
-- src/spgwu/spgwu_pfcp_association.hpp and .cpp, and send_heartbeat_request of src/spgwu/spgwu_sx.cpp: the
-- control-plane nodes that the user plane is associated with. Associations are shared by pointer, an
-- index into a heap as in Switch/Tables. A session's F-SEID and a node's address are numbers that
-- stand for them. Of other code, folly is the hash map, `entries` the order in which a loop goes
-- through one, `hash` std::hash on node ids, and `generate_trxn_id` the answers of the generator of
-- transaction numbers, by how many it gave before.
pub mod Retries
pub mod Runs
pub mod Silence
mod Tests
use openair_cn_cups.Common.{
  ℕ, ◌+◌, ◌%◌, ◌^◌, ◌==◌, ltb, if◌then◌else◌, Bool, true, false, not, ◌&&◌, List, [], ◌∷◌, ◌++◌,
  Option, none, some, length, get_elem?, set, map,
}
use openair_cn_cups.Uid
use openair_cn_cups.Switch.HashMap.{HashMap}

-- pfcp::node_id_t
pub record NodeId : Type 0 where
  pub node_id_type : ℕ
  pub address : ℕ

abbrev pub same_node : NodeId → NodeId → Bool
same_node a b = a.node_id_type == b.node_id_type && a.address == b.address

pub record PfcpAssociation : Type 0 where
  pub node_id : NodeId
  pub hash_node_id : ℕ
  pub recovery_time_stamp : ℕ
  pub function_features : Bool × ℕ
  pub sessions : List ℕ
  pub timer_heartbeat : ℕ
  pub num_retries_timer_heartbeat : ℕ
  pub trxn_id_heartbeat : ℕ

-- The two purposes of a timer.
pub data Purpose : Type 0 where
  trigger_heartbeat timeout_heartbeat : Purpose

pub data Call : Type 0 where
  timer_setup : Purpose → ℕ → ℕ → Call
  timer_remove : ℕ → Call
  send_request : NodeId → ℕ → Call
  remove_pfcp_session : ℕ → Call

pub record PfcpAssociations (folly : HashMap) : Type 0 where
  pub heap : List PfcpAssociation
  pub pending_associations : List ℕ
  pub associations : folly.Map ℕ
  pub timer_id : ℕ
  pub trxns : ℕ
  pub calls : List Call

abbrev pub max_retries : ℕ
max_retries = 5

-- The constructor from a node, whose hash is given.
abbrev pub new_association : NodeId → ℕ → PfcpAssociation
new_association node_id hash_node_id = record {
  node_id = node_id;
  hash_node_id = hash_node_id;
  recovery_time_stamp = 0;
  function_features = (false, 0);
  sessions = [];
  timer_heartbeat = 0;
  num_retries_timer_heartbeat = 0;
  trxn_id_heartbeat = 0;
}

abbrev pub no_association : PfcpAssociation
no_association = new_association (record { node_id_type = 0; address = 0 }) 0

unfoldable pub at : List PfcpAssociation → ℕ → PfcpAssociation
at heap p = elim (get_elem? heap p) [ some a ↦ a | none ↦ no_association ]

-- (int32_t)hash
abbrev pub key : ℕ → ℕ
key hash = hash % 2 ^ 32

abbrev pub kept : ℕ → Option (ℕ × List ℕ) → Option (ℕ × List ℕ)
kept q none = none
kept q (some (p, qs)) = some (p, q ∷ qs)

-- The loop of remove_peer_candidate_node: the first of the node, and those that stay.
unfoldable pub remove_peer_candidate_node :
    List PfcpAssociation → NodeId → List ℕ → Option (ℕ × List ℕ)
unfolding at
remove_peer_candidate_node heap n [] = none
remove_peer_candidate_node heap n (q ∷ qs) =
    let rest = remove_peer_candidate_node heap n qs in
    if same_node (at heap q).node_id n then some (q, qs) else kept q rest

abbrev pub others : List ℕ → Option (ℕ × List ℕ) → List ℕ
others pending none = pending
others pending (some (_, rest)) = rest

-- pfcp_association::has_session; a std::set is a list, as in Uid.
abbrev pub has_session : ℕ → PfcpAssociation → Bool
has_session fseid a = Uid.count fseid a.sessions

module _ {folly : HashMap} (entries : folly.Map ℕ → List ℕ) (hash : NodeId → ℕ)
    (generate_trxn_id : ℕ → ℕ) where
  -- *p = a
  abbrev pub write : ℕ → PfcpAssociation → PfcpAssociations folly → PfcpAssociations folly
  write p a st = record st { heap = set st.heap p a }

  abbrev pub call : Call → PfcpAssociations folly → PfcpAssociations folly
  call e st = record st { calls = e ∷ st.calls }

  -- itti_inst->timer_setup, whose answer becomes the timer of the association at `p`.
  unfoldable pub start_timer : Purpose → ℕ → PfcpAssociations folly → PfcpAssociations folly
  unfolding at
  start_timer purpose p st =
      let a = at st.heap p in
      let t = (st.timer_id + 1) % 2 ^ 32 in
      call (timer_setup purpose a.hash_node_id t)
        (record (write p (record a { timer_heartbeat = t }) st) { timer_id = t })

  -- trigger_heartbeat_request_procedure
  abbrev pub trigger_heartbeat_request_procedure :
      ℕ → PfcpAssociations folly → PfcpAssociations folly
  trigger_heartbeat_request_procedure p st = start_timer trigger_heartbeat p st

  -- add_peer_candidate_node
  unfoldable pub add_peer_candidate_node : NodeId → PfcpAssociations folly → PfcpAssociations folly
  unfolding remove_peer_candidate_node
  add_peer_candidate_node n st = record st {
    heap = st.heap ++ (new_association n (hash n) ∷ []);
    pending_associations =
        others st.pending_associations
          (remove_peer_candidate_node st.heap n st.pending_associations)
        ++ (length st.heap ∷ []);
  }

  -- add_association once remove_peer_candidate_node has answered.
  abbrev pub associated :
      NodeId
      → ℕ
      → Bool × ℕ
      → PfcpAssociations folly
      → Option (ℕ × List ℕ)
      → Bool × PfcpAssociations folly
  associated n time_stamp features st none = (false, st)
  associated n time_stamp features st (some (p, rest)) =
      let a = record (at st.heap p) {
        recovery_time_stamp = time_stamp;
        function_features = features;
      } in
      let st1 = record (write p a st) { pending_associations = rest } in
      let st2 = record st1 { associations = folly.insert (key (hash n)) p st1.associations } in
      (true, trigger_heartbeat_request_procedure p st2)

  -- add_association, without features or with them.
  unfoldable pub add_association :
      NodeId → ℕ → Bool × ℕ → PfcpAssociations folly → Bool × PfcpAssociations folly
  unfolding start_timer remove_peer_candidate_node at
  add_association n time_stamp features st =
      associated n time_stamp features st
        (remove_peer_candidate_node st.heap n st.pending_associations)

  abbrev pub get_association : NodeId → PfcpAssociations folly → Option ℕ
  get_association n st = folly.find (key (hash n)) st.associations

  -- send_heartbeat_request, to nodes with an IPv4 address.
  unfoldable pub send_heartbeat_request : ℕ → PfcpAssociations folly → PfcpAssociations folly
  unfolding start_timer at
  send_heartbeat_request p st =
      let timed = start_timer timeout_heartbeat p st in
      let trxn_id = generate_trxn_id st.trxns in
      let a = record (at timed.heap p) { trxn_id_heartbeat = trxn_id } in
      if (at st.heap p).node_id.node_id_type == 0
      then call (send_request a.node_id trxn_id) (record (write p a timed) { trxns = st.trxns + 1 })
      else st

  -- A heartbeat with this number of retries.
  abbrev pub heartbeat : ℕ → ℕ → PfcpAssociations folly → PfcpAssociations folly
  heartbeat retries p st =
      send_heartbeat_request p
        (write p (record (at st.heap p) { num_retries_timer_heartbeat = retries }) st)

  abbrev pub is_of : ℕ → ℕ → PfcpAssociations folly → Bool
  is_of hash_node_id p st = (at st.heap p).hash_node_id == hash_node_id

  -- The loop of initiate_heartbeat_request.
  unfoldable pub initiate : ℕ → List ℕ → PfcpAssociations folly → PfcpAssociations folly
  unfolding at send_heartbeat_request
  initiate hash_node_id [] st = st
  initiate hash_node_id (p ∷ ps) st =
      initiate hash_node_id ps (if is_of hash_node_id p st then heartbeat 0 p st else st)

  unfoldable pub initiate_heartbeat_request : ℕ → PfcpAssociations folly → PfcpAssociations folly
  unfolding initiate
  initiate_heartbeat_request hash_node_id st = initiate hash_node_id (entries st.associations) st

  -- pfcp_association::del_sessions, in the order of the list.
  unfoldable pub del_sessions : ℕ → PfcpAssociations folly → PfcpAssociations folly
  unfolding at
  del_sessions p st = record (write p (record (at st.heap p) { sessions = [] }) st) {
    calls = map remove_pfcp_session (at st.heap p).sessions ++ st.calls;
  }

  -- The end of timeout_heartbeat_request, when no retry is left.
  unfoldable pub give_up : ℕ → PfcpAssociations folly → PfcpAssociations folly
  unfolding at del_sessions add_peer_candidate_node
  give_up p st =
      let a = at st.heap p in
      let st1 = del_sessions p st in
      add_peer_candidate_node a.node_id
        (record st1 { associations = folly.erase (key a.hash_node_id) st1.associations })

  abbrev pub retries_left : ℕ → PfcpAssociations folly → Bool
  retries_left p st = ltb (at st.heap p).num_retries_timer_heartbeat max_retries

  -- The loop of timeout_heartbeat_request, which stops when it gives up.
  unfoldable pub time_out : ℕ → List ℕ → PfcpAssociations folly → PfcpAssociations folly
  unfolding at send_heartbeat_request give_up
  time_out hash_node_id [] st = st
  time_out hash_node_id (p ∷ ps) st =
      let retried = heartbeat ((at st.heap p).num_retries_timer_heartbeat + 1) p st in
      let rest = time_out hash_node_id ps (if is_of hash_node_id p st then retried else st) in
      if is_of hash_node_id p st && not (retries_left p st) then give_up p st else rest

  unfoldable pub timeout_heartbeat_request : ℕ → PfcpAssociations folly → PfcpAssociations folly
  unfolding time_out
  timeout_heartbeat_request hash_node_id st = time_out hash_node_id (entries st.associations) st

  -- The loop of handle_receive_heartbeat_response: the first with this transaction.
  unfoldable pub respond : ℕ → List ℕ → PfcpAssociations folly → PfcpAssociations folly
  unfolding at start_timer
  respond trxn_id [] st = st
  respond trxn_id (p ∷ ps) st =
      let rest = respond trxn_id ps st in
      if (at st.heap p).trxn_id_heartbeat == trxn_id
      then trigger_heartbeat_request_procedure p
          (call (timer_remove (at st.heap p).timer_heartbeat) st)
      else rest

  unfoldable pub handle_receive_heartbeat_response :
      ℕ → PfcpAssociations folly → PfcpAssociations folly
  unfolding respond
  handle_receive_heartbeat_response trxn_id st = respond trxn_id (entries st.associations) st

  -- notify_add_session
  unfoldable pub notify_add_session : NodeId → ℕ → PfcpAssociations folly → PfcpAssociations folly
  unfolding at Uid.insert
  notify_add_session n fseid st = elim (get_association n st) [
    | none ↦ st
    | some p ↦
        let a = at st.heap p in write p (record a { sessions = Uid.insert fseid a.sessions }) st
  ]

  -- notify_del_session, with the loop of get_association over the sessions' associations.
  unfoldable pub forget : ℕ → List ℕ → PfcpAssociations folly → PfcpAssociations folly
  unfolding at Uid.count Uid.erase
  forget fseid [] st = st
  forget fseid (p ∷ ps) st =
      let rest = forget fseid ps st in
      let a = at st.heap p in
      if has_session fseid a
      then write p (record a { sessions = Uid.erase fseid a.sessions }) st
      else rest

  unfoldable pub notify_del_session : ℕ → PfcpAssociations folly → PfcpAssociations folly
  unfolding forget
  notify_del_session fseid st = forget fseid (entries st.associations) st
