-- ===== src/NodeUpdate/Again.antt =====
-- docker_node: a second run on the node as the first has set it.
use openstack_osa_office_clu.Prelude.{
  Bool, true, false, not, ◌||◌, List, [], ◌∷◌, ◌++◌, if◌then◌else◌, some, none, Option, String,
  string_eq, ◌=?◌, ◌≡◌, refl, ap, ◌∙◌, arith, All, Bool-cases, inl, inr, truthy, ◌⊎◌, length,
  nat_eq,
}
use openstack_osa_office_clu.Prelude.Dict.{
  lookup, lookup-insert, lookup-cons, NodupKeys, IsEntry, NodupKeys-IsEntry,
}
use openstack_osa_office_clu.Swarm.{Labels, Node}
use openstack_osa_office_clu.NodeUpdate.{
  Params, NodeSpec, Update, LabelsState, merge, replace, or_nil, set_role, set_availability,
  nonempty, same_value, included, dict_equal, replace_labels, pop, Merged, set_label, set_labels,
  remove_label, remove_labels, keys_or_nil, merged, set_all_labels, first_update, update_of,
}

lookup-pop :
    (i k : String) (d : Labels) → lookup i (pop k d) ≡ (if i =? k then none else lookup i d)
unfolding lookup pop
lookup-pop i k [] = ground arith
lookup-pop i k ((j, v) ∷ d) =
    ground
      (arith, string_eq.beq_iff i k, string_eq.beq_iff k j, string_eq.beq_iff i j, lookup-pop i k d)

string_same : (s : String) → (s =? s) ≡ true
string_same s = (string_eq.beq_iff s s).1 refl

set_labels-settled :
    (given d : Labels) (c : Bool) (w : List String)
    → All (IsEntry d) given
    → set_labels given (d, c, w) ≡ (d, c, w)
unfolding set_labels
set_labels-settled [] d c w h = refl
set_labels-settled ((k, v) ∷ more) d c w (h, hs) =
    rw (h, string_same v) (set_labels-settled more d c w hs)

-- A key that is not given keeps its value.
set_labels-other :
    (k : String) (given : Labels) (m : Merged)
    → lookup k given ≡ none
    → lookup k (set_labels given m).0 ≡ lookup k m.0
unfolding set_labels
set_labels-other k [] m h = refl
set_labels-other k ((j, v) ∷ more) (d, c, w) h =
    set_labels-other k more (set_label j v (d, c, w)) (ground (arith, lookup-cons k j v more))
    ∙ ground (arith, lookup-cons k j v more, lookup-insert k j v d)

same_value-eq : (w : Option String) (v : String) → same_value w v ≡ true → w ≡ some v
same_value-eq none v h = absurd (ground arith)
same_value-eq (some w) v h = ap some ((string_eq.beq_iff w v).0 h)

set_label-lookup : (k v : String) (m : Merged) → lookup k (set_label k v m).0 ≡ some v
set_label-lookup k v (d, c, w) =
    ground (arith, string_same k, lookup-insert k k v d, same_value-eq (lookup k d) v)

set_labels-IsEntry :
    (given : Labels) (m : Merged) → NodupKeys given → All (IsEntry (set_labels given m).0) given
unfolding set_labels
set_labels-IsEntry [] m u = tt
set_labels-IsEntry ((k, v) ∷ more) m (fresh, u) = (
  set_labels-other k more (set_label k v m) fresh ∙ set_label-lookup k v m,
  set_labels-IsEntry more (set_label k v m) u,
)

-- A given label is not removed: one with an empty value counts as absent on both sides.
remove_labels-entry :
    (given : Option Labels) (k v : String) (ks : List String) (m : Merged)
    → lookup k (or_nil given) ≡ some v
    → lookup k m.0 ≡ some v
    → lookup k (remove_labels given ks m).0 ≡ some v
unfolding remove_labels
remove_labels-entry given k v [] m g h = h
remove_labels-entry given k v (j ∷ ks) (d, c, w) g h =
    remove_labels-entry given k v ks (remove_label given j (d, c, w)) g
      (ground (arith, string_eq.beq_iff k j, lookup-pop k j d))

-- A label that is missing or empty stays so.
remove_labels-gone :
    (given : Option Labels) (k : String) (ks : List String) (m : Merged)
    → nonempty (lookup k m.0) ≡ false
    → nonempty (lookup k (remove_labels given ks m).0) ≡ false
unfolding remove_labels
remove_labels-gone given k [] m h = h
remove_labels-gone given k (j ∷ ks) (d, c, w) h =
    remove_labels-gone given k ks (remove_label given j (d, c, w))
      (ground (arith, lookup-pop k j d))

abbrev IsGone : Option Labels → Labels → String → Type 0
IsGone given d k = (nonempty (lookup k (or_nil given)) || not (nonempty (lookup k d))) ≡ true

IsGone-at_once :
    (given : Option Labels) (k : String) (ks : List String) (m : Merged)
    → (nonempty (lookup k (or_nil given)) ≡ true) ⊎ (nonempty (lookup k (or_nil given)) ≡ false)
    → IsGone given (remove_labels given ks (remove_label given k m)).0 k
IsGone-at_once given k ks m (inl e) = rw e refl
IsGone-at_once given k ks (d, c, w) (inr e) = ground (
  arith,
  remove_labels-gone given k ks (remove_label given k (d, c, w)),
  lookup-pop k k d,
  string_same k,
)

remove_labels-IsGone :
    (given : Option Labels) (ks : List String) (m : Merged)
    → All (IsGone given (remove_labels given ks m).0) ks
unfolding remove_labels
remove_labels-IsGone given [] m = tt
remove_labels-IsGone given (k ∷ ks) m = (
  IsGone-at_once given k ks m (Bool-cases (nonempty (lookup k (or_nil given)))),
  remove_labels-IsGone given ks (remove_label given k m),
)

remove_labels-settled :
    (given : Option Labels) (ks : List String) (d : Labels) (c : Bool) (w : List String)
    → All (IsGone given d) ks
    → (remove_labels given ks (d, c, w)).1 ≡ c
unfolding remove_labels
remove_labels-settled given [] d c w h = refl
remove_labels-settled given (k ∷ ks) d c w (h, hs) = ground (
  arith,
  remove_labels-settled given ks d c w hs,
  remove_labels-settled given ks d c (w ++ k ∷ []) hs,
)

abbrev Replaced : Option Labels → Labels → Type 0
Replaced none d = d ≡ []
Replaced (some l) d = dict_equal d l ≡ true

-- The labels of the node are what the parameters ask for.
abbrev Settled : LabelsState → Params → Labels → Type 0
Settled replace p d = Replaced p.labels d
Settled merge p d = (merged p d).1 ≡ false

included-IsEntry : (d e : Labels) → All (IsEntry e) d → included d e ≡ true
unfolding included
included-IsEntry [] e h = refl
included-IsEntry ((k, v) ∷ d) e (h, hs) = rw (h, string_same v) (included-IsEntry d e hs)

dict_equal_same : (d : Labels) → NodupKeys d → dict_equal d d ≡ true
dict_equal_same d u =
    rw (included-IsEntry d d (NodupKeys-IsEntry d u))
      (ground (arith, nat_eq.beq_iff (length d) (length d)))

remove_labels-IsEntry :
    (given : Option Labels) (ks : List String) (m : Merged) (xs : Labels)
    → All (IsEntry (or_nil given)) xs
    → All (IsEntry m.0) xs
    → All (IsEntry (remove_labels given ks m).0) xs
remove_labels-IsEntry given ks m [] g h = tt
remove_labels-IsEntry given ks m ((k, v) ∷ xs) (g, gs) (h, hs) =
    (remove_labels-entry given k v ks m g h, remove_labels-IsEntry given ks m xs gs hs)

-- The labels that a run sends.
merged-Settled :
    (p : Params) (d : Labels) → NodupKeys (or_nil p.labels) → Settled merge p (merged p d).0
merged-Settled p d u =
    let given = or_nil p.labels in
    let ks = keys_or_nil p.labels_to_remove in
    let first = set_labels given (d, false, []) in
    let final = (remove_labels p.labels ks first).0 in
    let kept : All (IsEntry final) given =
      remove_labels-IsEntry p.labels ks first given (NodupKeys-IsEntry given u)
        (set_labels-IsEntry given (d, false, []) u) in
    ap (λ m. (remove_labels p.labels ks m).1) (set_labels-settled given final false [] kept)
    ∙ (remove_labels-settled p.labels ks final false [] (remove_labels-IsGone p.labels ks first))

replace_labels-Replaced :
    (given : Option Labels) (u : Update)
    → NodupKeys (or_nil given)
    → u.spec.labels ≡ given
    → Replaced given (or_nil (replace_labels given u).spec.labels)
replace_labels-Replaced none u n h = elim (Bool-cases (truthy (or_nil u.node.labels))) [
  | inl e ↦ rw e refl
  | inr e ↦ rw e refl
]
replace_labels-Replaced (some l) u n h = elim (Bool-cases (dict_equal (or_nil u.node.labels) l)) [
  | inl e ↦ rw (e, h) (dict_equal_same l n)
  | inr e ↦ rw e (dict_equal_same l n)
]

replace_labels-again :
    (given : Option Labels) (u : Update)
    → Replaced given (or_nil u.node.labels)
    → (replace_labels given u).changed ≡ u.changed
replace_labels-again none u h = rw h refl
replace_labels-again (some l) u h = rw h refl

set_all_labels-Settled :
    (st : LabelsState) (p : Params) (u : Update)
    → NodupKeys (or_nil p.labels)
    → u.spec.labels ≡ p.labels
    → Settled st p (or_nil (set_all_labels st p u).spec.labels)
set_all_labels-Settled merge p u n h = merged-Settled p (or_nil u.node.labels) n
set_all_labels-Settled replace p u n h = replace_labels-Replaced p.labels u n h

set_all_labels-again :
    (st : LabelsState) (p : Params) (u : Update)
    → Settled st p (or_nil u.node.labels)
    → (set_all_labels st p u).changed ≡ u.changed
set_all_labels-again merge p u h = rw h (ground arith)
set_all_labels-again replace p u h = replace_labels-again p.labels u h

-- The node with what a run sends for it.
abbrev pub value_or : String → Option String → String
value_or v none = v
value_or v (some w) = w

abbrev pub applied : NodeSpec → Node → Node
applied spec n = record n {
  role = value_or n.role spec.role;
  availability = value_or n.availability spec.availability;
  labels = spec.labels;
}

-- The other two fields.
abbrev IsAsked : Option String → String → Type 0
IsAsked none x = Unit
IsAsked (some y) x = x ≡ y

set_role-IsAsked :
    (r : Option String) (u : Update)
    → u.spec.role ≡ r
    → IsAsked r (value_or u.node.role (set_role r u).spec.role)
set_role-IsAsked none u h = tt
set_role-IsAsked (some r) u h = elim (Bool-cases (u.node.role =? r)) [
  | inl e ↦ rw (e, h) refl
  | inr e ↦ rw e refl
]

-- A run changes the role in its data only, and nothing where the node has it.
set_role-keeps :
    (r : Option String) (u : Update)
    → ((set_role r u).node ≡ u.node)
      × ((set_role r u).spec.availability ≡ u.spec.availability)
      × ((set_role r u).spec.labels ≡ u.spec.labels)
set_role-keeps none u = (refl, refl, refl)
set_role-keeps (some r) u = elim (Bool-cases (u.node.role =? r)) [
  | inl e ↦ rw e (refl, refl, refl)
  | inr e ↦ rw e (refl, refl, refl)
]

set_role-again :
    (r : Option String) (u : Update) → IsAsked r u.node.role → (set_role r u).changed ≡ u.changed
set_role-again none u h = refl
set_role-again (some r) u h = rw (h, string_same r) refl

set_availability-IsAsked :
    (a : Option String) (u : Update)
    → u.spec.availability ≡ a
    → IsAsked a (value_or u.node.availability (set_availability a u).spec.availability)
set_availability-IsAsked none u h = tt
set_availability-IsAsked (some a) u h = elim (Bool-cases (u.node.availability =? a)) [
  | inl e ↦ rw (e, h) refl
  | inr e ↦ rw (e, h) refl
]

set_availability-keeps :
    (a : Option String) (u : Update)
    → ((set_availability a u).node.labels ≡ u.node.labels)
      × ((set_availability a u).spec.role ≡ u.spec.role)
      × ((set_availability a u).spec.labels ≡ u.spec.labels)
set_availability-keeps none u = (refl, refl, refl)
set_availability-keeps (some a) u = elim (Bool-cases (u.node.availability =? a)) [
  | inl e ↦ rw e (refl, refl, refl)
  | inr e ↦ rw e (refl, refl, refl)
]

set_availability-again :
    (a : Option String) (u : Update)
    → IsAsked a u.node.availability
    → (set_availability a u).changed ≡ u.changed
set_availability-again none u h = refl
set_availability-again (some a) u h = rw (h, string_same a) refl

replace_labels-keeps :
    (given : Option Labels) (u : Update)
    → ((replace_labels given u).spec.role ≡ u.spec.role)
      × ((replace_labels given u).spec.availability ≡ u.spec.availability)
replace_labels-keeps none u = elim (Bool-cases (truthy (or_nil u.node.labels))) [
  | inl e ↦ rw e (refl, refl)
  | inr e ↦ rw e (refl, refl)
]
replace_labels-keeps (some l) u = elim (Bool-cases (dict_equal (or_nil u.node.labels) l)) [
  | inl e ↦ rw e (refl, refl)
  | inr e ↦ rw e (refl, refl)
]

set_all_labels-keeps :
    (st : LabelsState) (p : Params) (u : Update)
    → ((set_all_labels st p u).spec.role ≡ u.spec.role)
      × ((set_all_labels st p u).spec.availability ≡ u.spec.availability)
set_all_labels-keeps merge p u = (refl, refl)
set_all_labels-keeps replace p u = replace_labels-keeps p.labels u

module _ (p : Params) where
  abbrev with_role : Node → Update
  with_role n = set_role p.role (first_update p n)

  abbrev with_availability : Node → Update
  with_availability n = set_availability p.availability (with_role n)

  update_of-role : (n : Node) → IsAsked p.role (applied (update_of p n).spec n).role
  unfolding update_of
  update_of-role n =
      let kept =
        (set_all_labels-keeps p.labels_state p (with_availability n)).0
        ∙ (set_availability-keeps p.availability (with_role n)).1 in
      rw kept (set_role-IsAsked p.role (first_update p n) refl)

  update_of-availability :
      (n : Node) → IsAsked p.availability (applied (update_of p n).spec n).availability
  unfolding update_of
  update_of-availability n =
      let first = set_role-keeps p.role (first_update p n) in
      let asked = set_availability-IsAsked p.availability (with_role n) first.1 in
      let node = ap (λ m. m.availability) first.0 in
      rw ((set_all_labels-keeps p.labels_state p (with_availability n)).1) (rw node at asked)

  update_of-Settled :
      (n : Node)
      → NodupKeys (or_nil p.labels)
      → Settled p.labels_state p (or_nil (update_of p n).spec.labels)
  unfolding update_of
  update_of-Settled n u = set_all_labels-Settled p.labels_state p (with_availability n) u (
      (set_availability-keeps p.availability (with_role n)).2
      ∙ (set_role-keeps p.role (first_update p n)).2)

  unchanged :
      (n : Node)
      → IsAsked p.role n.role
      → IsAsked p.availability n.availability
      → Settled p.labels_state p (or_nil n.labels)
      → (update_of p n).changed ≡ false
  unfolding update_of
  unchanged n r a l =
      let node = (set_role-keeps p.role (first_update p n)).0 in
      let labels =
        (set_availability-keeps p.availability (with_role n)).0 ∙ ap (λ m. m.labels) node in
      set_all_labels-again p.labels_state p (with_availability n) (rw labels l)
      ∙ set_availability-again p.availability (with_role n) (rw (ap (λ m. m.availability) node) a)
      ∙ set_role-again p.role (first_update p n) r

  -- Where the parameter `labels` has each key once, a run on the node with the role, the
  -- availability and the labels that a run sends for it finds nothing to change.
  pub update_of-again :
      (n : Node)
      → NodupKeys (or_nil p.labels)
      → (update_of p (applied (update_of p n).spec n)).changed ≡ false
  update_of-again n u =
      unchanged (applied (update_of p n).spec n) (update_of-role n) (update_of-availability n)
        (update_of-Settled n u)
