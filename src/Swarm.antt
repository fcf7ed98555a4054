-- ===== src/Swarm.antt =====
-- The Swarm part of the client: collections/ansible_collections/community/docker/plugins/module_utils/_swarm.py.
pub mod Down
pub mod Nodes
pub mod Examples
use openstack_osa_office_clu.Prelude.{
  ℕ, suc, zero, Bool, true, false, not, ◌&&◌, ◌||◌, List, [], ◌∷◌, if◌then◌else◌, some, none,
  Option, String, string_eq, Result, ok, err, ◌=?◌, nat_eq, ltb, contains,
}
use openstack_osa_office_clu.Prelude.Dict.{Dict}
use openstack_osa_office_clu.Prelude.Text.{Text}
use openstack_osa_office_clu.Prelude.Int.{ℤ, pos, negsuc}
use openstack_osa_office_clu.Prelude.Programs.{Program}

-- What the SDK raises: an `APIError` with its HTTP status, or anything else.
pub data Problem : Type 0 where
  api_error : ℕ → Problem
  other_exception : Problem

-- The messages of `fail`.
pub data Reason : Type 0 where
  no_node_information no_host_information not_on_a_manager not_a_manager : Reason
  node_error manager_error service_error : Problem → Reason
  node_is_no_swarm_node node_is_down update_failed : Reason

-- How the task stops: by `fail`, or by an exception that nothing handles.
pub data Raised : Type 0 where
  failed : Reason → Raised
  uncaught : Problem → Raised

pub record ManagerStatus : Type 0 where
  pub leader : Option Bool
  pub addr : Text
  pub reachability : String

abbrev pub Labels : Type 0
Labels = Dict String String

pub record Node : Type 0 where
  pub id : Option String
  pub version : ℕ
  pub role : String
  pub availability : String
  pub labels : Option Labels
  pub state : String
  pub addr : Text
  pub manager : Option ManagerStatus
  pub hostname : String
  pub engine_version : String

-- `docker info`, its part `Swarm`.
pub record Info : Type 0 where
  pub node_id : String
  pub local_node_state : String

-- The SDK's client. `wait` is what five seconds do to the swarm.
pub record Client : Type 1 where
  pub State : Type 0
  pub Service : Type 0
  pub info : State → Result Problem (Option Info)
  pub inspect_swarm : State → Result Problem (Unit {0})
  pub inspect_node : String → State → Result Problem Node
  pub nodes : State → Result Problem (List Node)
  pub inspect_service : String → State → Result Problem Service
  pub wait : State → State

abbrev is_some : Option String → Bool
is_some none = false
is_some (some a) = true

abbrev pub filled : String → Bool
filled s = not (s =? "")

-- `node_info["ManagerStatus"]["Addr"].count(":")`
abbrev pub count_colons : Text → ℕ
count_colons [] = 0
count_colons (c ∷ cs) = if c =? 58 then suc (count_colons cs) else count_colons cs

-- `addr.split(":", 1)[0]`
abbrev pub before_colon : Text → Text
before_colon [] = []
before_colon (c ∷ cs) = if c =? 58 then [] else c ∷ before_colon cs

abbrev pub text_or : Text → Text → Text
text_or [] t = t
text_or (c ∷ cs) t = c ∷ cs

abbrev pub is_leader : Option Bool → Bool
is_leader none = false
is_leader (some b) = b

-- The address of the leader in place of the node's, which may be 0.0.0.0.
abbrev pub leader_address : Option ManagerStatus → Text → Text
leader_address none addr = addr
leader_address (some m) addr =
    if is_leader m.leader && (count_colons m.addr =? 1)
    then text_or (before_colon m.addr) addr
    else addr

abbrev pub with_leader_address : Node → Node
with_leader_address n = record n { addr = leader_address n.manager n.addr }

abbrev pub is_down : Node → Bool
is_down n = n.state =? "down"

-- `max(1, repeat_check)`
abbrev pub number_of_rounds : ℤ → ℕ
number_of_rounds (negsuc n) = 1
number_of_rounds (pos n) = if ltb n 1 then 1 else n

module _ (C : Client) where
  -- The answers of the SDK, and what the methods make of them.
  abbrev node_id_of : Result Problem (Option Info) → Result Raised (Option String)
  node_id_of (ok none) = ok none
  node_id_of (ok (some i)) = ok (if filled i.node_id then some i.node_id else none)
  node_id_of (err (api_error n)) = err (failed no_node_information)
  node_id_of (err other_exception) = err (uncaught other_exception)

  unfoldable pub get_swarm_node_id : C.State → Result Raised (Option String)
  get_swarm_node_id s = node_id_of (C.info s)

  abbrev inspected : Bool → Result Problem Node → Result Raised (Option Node)
  inspected skip_missing (ok n) = ok (some (with_leader_address n))
  inspected skip_missing (err (api_error code)) =
      if code =? 503
      then err (failed not_on_a_manager)
      else if (code =? 404) && skip_missing
      then ok none
      else err (failed (manager_error (api_error code)))
  inspected skip_missing (err other_exception) = err (failed (node_error other_exception))

  abbrev inspect_found :
      Bool → C.State → Result Raised (Option String) → Result Raised (Option Node)
  inspect_found skip_missing s (err e) = err e
  inspect_found skip_missing s (ok none) = err (failed no_node_information)
  inspect_found skip_missing s (ok (some id)) = inspected skip_missing (C.inspect_node id s)

  abbrev this_node : Option String → C.State → Result Raised (Option String)
  this_node none s = get_swarm_node_id s
  this_node (some id) s = ok (some id)

  unfoldable pub get_node_inspect : Option String → Bool → C.State → Result Raised (Option Node)
  unfolding get_swarm_node_id
  get_node_inspect node_id skip_missing s = inspect_found skip_missing s (this_node node_id s)

  abbrev is_active : String → Bool
  is_active state = contains ("active" ∷ "pending" ∷ "locked" ∷ []) state

  abbrev is_member : Result Problem (Option Info) → Result Raised (Option Bool)
  is_member (ok none) = ok (some false)
  is_member (ok (some i)) = ok (some (filled i.node_id || is_active i.local_node_state))
  is_member (err (api_error n)) = err (failed no_host_information)
  is_member (err other_exception) = err (uncaught other_exception)

  abbrev has_id : Result Raised (Option Node) → Result Raised (Option Bool)
  has_id (ok (some n)) = ok (some (is_some n.id))
  has_id (ok none) = err (uncaught other_exception)
  has_id (err (uncaught (api_error n))) = ok none
  has_id (err (uncaught other_exception)) = err (uncaught other_exception)
  has_id (err (failed r)) = err (failed r)

  unfoldable pub check_if_swarm_node : Option String → C.State → Result Raised (Option Bool)
  unfolding get_node_inspect
  check_if_swarm_node none s = is_member (C.info s)
  check_if_swarm_node (some id) s = has_id (get_node_inspect (some id) false s)

  abbrev manages : Result Problem (Unit {0}) → Result Raised Bool
  manages (ok _) = ok true
  manages (err (api_error n)) = ok false
  manages (err other_exception) = err (uncaught other_exception)

  unfoldable pub check_if_swarm_manager : C.State → Result Raised Bool
  check_if_swarm_manager s = manages (C.inspect_swarm s)

  abbrev require : Reason → Result Raised Bool → Result Raised (Unit {0})
  require r (ok true) = ok tt
  require r (ok false) = err (failed r)
  require r (err e) = err e

  unfoldable pub fail_task_if_not_swarm_manager : C.State → Result Raised (Unit {0})
  unfolding check_if_swarm_manager
  fail_task_if_not_swarm_manager s = require not_a_manager (check_if_swarm_manager s)

  abbrev negated : Result Raised Bool → Result Raised Bool
  negated (ok b) = ok (not b)
  negated (err e) = err e

  abbrev and_then : Result Raised (Option Bool) → Result Raised Bool → Result Raised Bool
  and_then (ok (some true)) r = r
  and_then (ok (some false)) r = ok false
  and_then (ok none) r = ok false
  and_then (err e) r = err e

  pub check_if_swarm_worker : C.State → Result Raised Bool
  unfolding check_if_swarm_node check_if_swarm_manager
  check_if_swarm_worker s =
      and_then (check_if_swarm_node none s) (negated (check_if_swarm_manager s))

  -- The rounds of `check_if_swarm_node_is_down`, with a wait before each but the first.
  abbrev go_on :
      Program Raised C.State Bool
      → C.State
      → Result Raised (Option Node)
      → Result Raised Bool × C.State
  go_on rest s (ok (some n)) = if is_down n then (ok true, s) else rest s
  go_on rest s (ok none) = (err (uncaught other_exception), s)
  go_on rest s (err e) = (err e, s)

  abbrev waited_before : ℕ → C.State → C.State
  waited_before zero s = s
  waited_before (suc retry) s = C.wait s

  unfoldable pub rounds : ℕ → ℕ → Option String → Program Raised C.State Bool
  unfolding get_node_inspect
  rounds zero retry node_id s = (ok false, s)
  rounds (suc left) retry node_id s =
      go_on (rounds left (suc retry) node_id) (waited_before retry s)
        (get_node_inspect node_id false (waited_before retry s))

  abbrev from_node :
      (Option String → Program Raised C.State Bool)
      → C.State
      → Result Raised (Option String)
      → Result Raised Bool × C.State
  from_node check s (ok node_id) = check node_id s
  from_node check s (err e) = (err e, s)

  unfoldable pub check_if_swarm_node_is_down : Option String → ℤ → Program Raised C.State Bool
  unfolding rounds get_swarm_node_id
  check_if_swarm_node_is_down node_id repeat_check s =
      from_node (rounds (number_of_rounds repeat_check) 0) s (this_node node_id s)
