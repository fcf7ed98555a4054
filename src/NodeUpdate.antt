-- ===== src/NodeUpdate.antt =====
-- The module docker_node:
-- collections/ansible_collections/community/docker/plugins/modules/docker_node.py.
pub mod Again
pub mod CheckMode
mod Examples
use openstack_osa_office_clu.Prelude.{
  ℕ, Bool, true, false, not, ◌&&◌, ◌||◌, List, [], ◌∷◌, ◌++◌, if◌then◌else◌, some, none, Option,
  String, string_eq, Result, ok, err, ◌=?◌, truthy, length, nat_eq,
}
use openstack_osa_office_clu.Prelude.Dict.{Dict, lookup, insert}
use openstack_osa_office_clu.Prelude.Int.{pos}
use openstack_osa_office_clu.Prelude.Programs.{Program, pure, raise, reads, ◌>>=◌, ◌>>◌}
use openstack_osa_office_clu.Swarm.{
  Client, Labels, Node, Problem, api_error, other_exception, Reason, Raised, failed, uncaught,
  node_error, update_failed, node_is_no_swarm_node, node_is_down, filled, get_node_inspect,
  check_if_swarm_node, fail_task_if_not_swarm_manager, check_if_swarm_node_is_down,
}

pub data LabelsState : Type 0 where
  merge replace : LabelsState

-- The parameters, with the labels' values turned into strings by `sanitize_labels`.
pub record Params : Type 0 where
  pub hostname : String
  pub labels : Option Labels
  pub labels_state : LabelsState
  pub labels_to_remove : Option (List String)
  pub availability : Option String
  pub role : Option String
  pub check_mode : Bool

-- `node_spec`, where `none` is Python's None.
pub record NodeSpec : Type 0 where
  pub availability : Option String
  pub role : Option String
  pub labels : Option Labels

-- The local variables of `node_update`, and the labels warned about.
pub record Update : Type 0 where
  pub spec : NodeSpec
  pub node : Node
  pub changed : Bool
  pub warned : List String

abbrev pub or_nil : Option Labels → Labels
or_nil none = []
or_nil (some d) = d

abbrev pub with_spec : NodeSpec → Update → Update
with_spec spec u = record u { spec = spec }

abbrev pub change_spec : NodeSpec → Update → Update
change_spec spec u = record u { spec = spec; changed = true }

abbrev pub set_role : Option String → Update → Update
set_role none u = with_spec (record u.spec { role = some u.node.role }) u
set_role (some r) u =
    if u.node.role =? r then u else change_spec (record u.spec { role = some r }) u

-- A new availability is written into the node's data; `node_spec` has it from the start.
abbrev pub set_availability : Option String → Update → Update
set_availability none u = with_spec (record u.spec { availability = some u.node.availability }) u
set_availability (some a) u =
    if u.node.availability =? a
    then u
    else record u { node = record u.node { availability = a }; changed = true }

-- `d.get(k)` is neither missing nor empty.
abbrev pub nonempty : Option String → Bool
nonempty none = false
nonempty (some v) = filled v

abbrev pub same_value : Option String → String → Bool
same_value none v = false
same_value (some w) v = w =? v

-- Each entry of the first is in the second.
pub included : Labels → Labels → Bool
unfolding lookup
included [] e = true
included ((k, v) ∷ d) e = same_value (lookup k e) v && included d e

-- `d == e` of two dicts
abbrev pub dict_equal : Labels → Labels → Bool
dict_equal d e = (length d =? length e) && included d e

abbrev pub replace_labels : Option Labels → Update → Update
replace_labels none u =
    if truthy (or_nil u.node.labels)
    then change_spec (record u.spec { labels = some [] }) u
    else with_spec (record u.spec { labels = some [] }) u
replace_labels (some l) u =
    if dict_equal (or_nil u.node.labels) l
    then u
    else change_spec (record u.spec { labels = some l }) u

-- `labels.pop(k)`; a dict has each key once.
unfoldable pub pop : String → Labels → Labels
pop k [] = []
pop k ((j, v) ∷ d) = if k =? j then pop k d else (j, v) ∷ pop k d

-- The labels so far, whether they changed, and the keys warned about.
abbrev pub Merged : Type 0
Merged = Labels × Bool × List String

abbrev pub set_label : String → String → Merged → Merged
set_label k v (labels, changed, warned) =
    if same_value (lookup k labels) v
    then (labels, changed, warned)
    else (insert k v labels, true, warned)

unfoldable pub set_labels : Labels → Merged → Merged
unfolding lookup insert
set_labels [] m = m
set_labels ((k, v) ∷ more) m = set_labels more (set_label k v m)

abbrev pub remove_label : Option Labels → String → Merged → Merged
remove_label given k (labels, changed, warned) =
    if nonempty (lookup k (or_nil given))
    then (labels, changed, warned ++ k ∷ [])
    else if nonempty (lookup k labels)
    then (pop k labels, true, warned)
    else (labels, changed, warned)

unfoldable pub remove_labels : Option Labels → List String → Merged → Merged
unfolding lookup pop
remove_labels given [] m = m
remove_labels given (k ∷ ks) m = remove_labels given ks (remove_label given k m)

abbrev pub keys_or_nil : Option (List String) → List String
keys_or_nil none = []
keys_or_nil (some ks) = ks

abbrev pub merged : Params → Labels → Merged
merged p labels =
    remove_labels p.labels (keys_or_nil p.labels_to_remove)
      (set_labels (or_nil p.labels) (labels, false, []))

abbrev pub record_merged : Merged → Update → Update
record_merged (labels, changed, warned) u = record u {
  spec = record u.spec { labels = some labels };
  changed = u.changed || changed;
  warned = u.warned ++ warned;
}

abbrev pub set_all_labels : LabelsState → Params → Update → Update
set_all_labels replace p u = replace_labels p.labels u
set_all_labels merge p u = record_merged (merged p (or_nil u.node.labels)) u

abbrev pub first_update : Params → Node → Update
first_update p n = record {
  spec = record { availability = p.availability; role = p.role; labels = p.labels };
  node = n;
  changed = false;
  warned = [];
}

-- What `node_update` makes of the parameters and the node's data.
unfoldable pub update_of : Params → Node → Update
unfolding set_labels remove_labels included
update_of p n =
    set_all_labels p.labels_state p
      (set_availability p.availability (set_role p.role (first_update p n)))

-- The results.
pub record Report : Type 0 where
  pub node : Option Node
  pub changed : Bool
  pub warned : List String

-- `update_node` of the SDK: the id, the version and the new data.
module _ (C : Client)
    (update_node : Option String
      → ℕ
      → NodeSpec
      → C.State
      → Result Problem (Unit {0}) × C.State) where
  abbrev pub Call : Type 0 → Type 0
  Call A = Program Raised C.State A

  abbrev pub inspected : Result Problem Node → Result Raised Node
  inspected (ok n) = ok n
  inspected (err (api_error code)) = err (failed (node_error (api_error code)))
  inspected (err other_exception) = err (uncaught other_exception)

  abbrev pub updated : Result Problem (Unit {0}) → Result Raised (Unit {0})
  updated (ok _) = ok tt
  updated (err (api_error code)) = err (failed update_failed)
  updated (err other_exception) = err (uncaught other_exception)

  abbrev pub post : Params → Update → Call (Unit {0})
  post p u s =
      if p.check_mode
      then (ok tt, s)
      else let answer = update_node u.node.id u.node.version u.spec s in
        (updated answer.0, answer.1)

  abbrev pub report : Update → Option Node → Report
  report u n = record { node = n; changed = u.changed; warned = u.warned }

  unfoldable pub finish : Params → Update → Call Report
  unfolding get_node_inspect
  finish p u =
      if u.changed
      then (post p u >> reads (get_node_inspect C u.node.id false) >>= λ n. pure (report u n))
      else pure (report u (some u.node))

  abbrev pub unless_failed : Bool → Reason → Call (Unit {0})
  unless_failed true r = raise (failed r)
  unless_failed false r = pure tt

  -- `if not ...:` of an answer that may be None
  abbrev pub is_not : Option Bool → Bool
  is_not none = true
  is_not (some b) = not b

  unfoldable pub node_update : Params → Call Report
  unfolding finish check_if_swarm_node check_if_swarm_node_is_down update_of
  node_update p = reads (check_if_swarm_node C (some p.hostname)) >>= λ part.
      unless_failed (is_not part) node_is_no_swarm_node
      >> check_if_swarm_node_is_down C none (pos 1)
      >>= λ down.
          unless_failed down node_is_down
          >> reads (λ s. inspected (C.inspect_node p.hostname s))
          >>= λ n. finish p (update_of p n)

  -- `SwarmNodeManager(client, results)`
  unfoldable pub manage_node : Params → Call Report
  unfolding node_update fail_task_if_not_swarm_manager
  manage_node p = reads (fail_task_if_not_swarm_manager C) >> node_update p
