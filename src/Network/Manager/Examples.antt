-- ===== src/Network/Manager/Examples.antt =====
-- docker_network against a daemon that has one network, and the theorems at runs of it.
use openstack_osa_office_clu.Prelude.{
  ℕ, Bool, true, false, not, ◌&&◌, ◌||◌, List, [], ◌∷◌, some, none, Option, String, string_eq, ◌=?◌,
  if◌then◌else◌, Result, ok, err, ◌≡◌, refl, sym, ap, ◌∙◌, arith, contains, any, Bool-cases, inl,
  inr,
}
use openstack_osa_office_clu.Network.Config.{IpAddresses, Network, Params, present}
use openstack_osa_office_clu.Network.Manager.{
  Daemon, Session, CreateData, create_data, container_names, start, manage_network,
  settle_containers, wait_until_gone, created, removed, connected, disconnected,
}
use openstack_osa_office_clu.Network.Manager.CheckMode.Agreement.{IsSteady, in_check_mode}
use openstack_osa_office_clu.Network.Manager.CheckMode.{manage_network-in_check_mode}
use openstack_osa_office_clu.Network.Manager.Containers.{IsAttachment, exists, settle_containers-ok}
use openstack_osa_office_clu.Network.Manager.Waiting.{waited, wait_until_gone-GoneAfter}

-- The network, if there is one, and the containers.
abbrev World : Type 0
World = Option Network × List String

abbrev made : CreateData → Network
made d = record {
  id = "n1";
  config_only = d.config_only;
  config_from = d.config_from;
  driver = d.driver;
  options = some d.options;
  ipam = none;
  enable_ipv4 = d.enable_ipv4;
  enable_ipv6 = d.enable_ipv6;
  internal = some d.internal;
  scope = d.scope;
  attachable = d.attachable;
  ingress = d.ingress;
  labels = some d.labels;
  containers = [];
}

abbrev without : String → List String → List String
without name [] = []
without name (x ∷ xs) = if x =? name then without name xs else x ∷ without name xs

abbrev change : (List String → List String) → World → Result ℕ (Unit {0}) × World
change f (none, cs) = (err 404, (none, cs))
change f (some n, cs) = (ok tt, (some (record n { containers = f n.containers }), cs))

abbrev make : CreateData → World → Result ℕ String × World
make d (none, cs) = (ok "n1", (some (made d), cs))
make d (some n, cs) = (err 409, (some n, cs))

-- The container "db" has the ID "4f3a".
abbrev name_of : String → String
name_of m = if m =? "4f3a" then "db" else m

abbrev one_network : Daemon
one_network = record {
  State = World;
  ApiError = ℕ;
  get_network = λ name s. ok s.0;
  get_network_by_id = λ id s. ok s.0;
  get_container = λ name s. ok (contains s.1 (name_of name));
  create = make;
  delete = λ name s. (ok tt, (none, s.1));
  connect = λ name c s. change (λ xs. name_of c ∷ xs) s;
  disconnect = λ name c s. change (without (name_of c)) s;
  wait = λ s. s;
}

change-containers : (f : List String → List String) (s : World) → (change f s).1.1 ≡ s.1
change-containers f (none, cs) = refl
change-containers f (some n, cs) = refl

make-containers : (d : CreateData) (s : World) → (make d s).1.1 ≡ s.1
make-containers d (none, cs) = refl
make-containers d (some n, cs) = refl

make_empty :
    (d : CreateData) (s s' : World) {id : String} {n : Option Network}
    → make d s ≡ (ok id, s')
    → ◌≡◌ {A = Result ℕ (Option Network)} (ok s'.0) (ok n)
    → container_names n ≡ []
make_empty d (none, cs) s' h k = ground arith
make_empty d (some m, cs) s' h k = absurd (ground arith)

steady : IsSteady one_network
steady = record {
  create_steady = λ d s c. ap (λ cs. ok (contains cs (name_of c))) (make-containers d s);
  delete_steady = λ name s c. refl;
  connect_steady = λ name m s c.
      ap (λ cs. ok (contains cs (name_of c))) (change-containers (λ xs. name_of m ∷ xs) s);
  disconnect_steady = λ name m s c.
      ap (λ cs. ok (contains cs (name_of c))) (change-containers (without (name_of m)) s);
  wait_steady = λ s c. refl;
  created_empty = λ p s s' h k. make_empty (create_data p) s s' h k;
}

abbrev at : String → World → Bool
at c s = contains (container_names s.0) c

contains-without :
    (xs : List String) (m c : String) → contains (without m xs) c ≡ (not (m =? c) && contains xs c)
contains-without [] m c = ground arith
contains-without (x ∷ xs) m c = ground (
  arith,
  contains-without xs m c,
  string_eq.beq_iff x m,
  string_eq.beq_iff c x,
  string_eq.beq_iff c m,
  string_eq.beq_iff m c,
)

change_attaches :
    (m c : String) (s s' : World)
    → change (λ xs. m ∷ xs) s ≡ (ok tt, s')
    → at c s' ≡ ((m =? c) || at c s)
change_attaches m c (none, cs) s' h = absurd (ground arith)
change_attaches m c (some n, cs) s' h =
    sym (ap (λ x. at c x.1) h) ∙ ground (arith, string_eq.beq_iff c m, string_eq.beq_iff m c)

change_detaches :
    (m c : String) (s s' : World)
    → change (without m) s ≡ (ok tt, s')
    → at c s' ≡ (not (m =? c) && at c s)
change_detaches m c (none, cs) s' h = absurd (ground arith)
change_detaches m c (some n, cs) s' h =
    sym (ap (λ x. at c x.1) h) ∙ contains-without n.containers m c

attachment : (name : String) → IsAttachment one_network name name_of at
attachment name = record {
  connect_attaches = λ m c s s' h. change_attaches (name_of m) c s s' h;
  disconnect_detaches = λ m c s s' h. change_detaches (name_of m) c s s' h;
  connect_steady =
      λ m c s. ap (λ cs. ok (contains cs (name_of c))) (change-containers (λ xs. name_of m ∷ xs) s);
}

abbrev no_addresses : IpAddresses
no_addresses = record { ip_address = λ s. none; ip_network = λ s. none }

abbrev wanted : Params
wanted = record {
  name = "net";
  connected = "web" ∷ "db" ∷ "gone" ∷ [];
  config_from = none;
  config_only = none;
  driver = "bridge";
  driver_options = [];
  ipam_driver = none;
  ipam_driver_options = none;
  ipam_config = none;
  appends = false;
  force = false;
  internal = some true;
  labels = [];
  enable_ipv4 = none;
  enable_ipv6 = none;
  scope = none;
  attachable = none;
  ingress = none;
  target = present;
  debug = false;
  check_mode = false;
  diff = true;
}

-- A network that is not internal, with a container that is not wanted.
abbrev old : Network
old = record (made (create_data wanted)) { internal = some false; containers = "web" ∷ "old" ∷ [] }

abbrev before : World
before = (some old, "web" ∷ "db" ∷ "old" ∷ [])

abbrev end : Session World
end = (manage_network one_network no_addresses 1 wanted before).1

-- The network is made anew, and the wanted containers that exist are connected.
manage_network-wanted :
    end.actions
    ≡ disconnected "web"
      ∷ disconnected "old"
      ∷ removed "net"
      ∷ created "net" "bridge"
      ∷ connected "web"
      ∷ connected "db"
      ∷ []
unfolding manage_network
manage_network-wanted = refl

manage_network-in_check_mode_example :
    (end' : Session World) × (manage_network one_network no_addresses 1
        (in_check_mode wanted)
        before
      ≡ (ok tt, end'))
    × (end'.daemon ≡ before)
    × (end'.actions ≡ end.actions)
    × (end'.changed ≡ end.changed)
unfolding manage_network
manage_network-in_check_mode_example =
    manage_network-in_check_mode one_network no_addresses 1 wanted before steady refl

-- A session whose `existing_network` is up to date.
abbrev begun : Session World
begun = record (start one_network no_addresses 1 before) { existing = some old }

-- The second container is asked for by its ID.
abbrev by_id : List String
by_id = "web" ∷ "4f3a" ∷ "gone" ∷ []

abbrev settled : Session World
settled = (settle_containers one_network no_addresses 1 wanted by_id begun).1

names_listed : (c : String) → contains old.containers c ≡ true → name_of c ≡ c
names_listed c h = elim (Bool-cases (c =? "4f3a")) [
  | inl e ↦
      let same : c ≡ "4f3a" = (string_eq.beq_iff c "4f3a").0 e in
      let no : contains old.containers "4f3a" ≡ true =
        ap (contains old.containers) (sym same) ∙ h in
      absurd (ground (arith, no))
  | inr e ↦ rw e refl
]

settle_containers-ok_example : at "db" settled.daemon ≡ (
    if at "db" before
    then contains by_id "db"
    else any (λ m. (name_of m =? "db") && exists one_network m before) by_id)
unfolding settle_containers
settle_containers-ok_example =
    settle_containers-ok one_network wanted name_of at (attachment "net") refl no_addresses 1 by_id
      begun settled refl (λ c. refl) (λ c h. names_listed c h) refl "db"

by_id_connected : settled.daemon.0 ≡ some (record old { containers = "db" ∷ "web" ∷ [] })
unfolding settle_containers
by_id_connected = refl

-- In the next run, the ID is not found among the names that are listed, so that `connect` is called
-- again, which this daemon allows, and disconnect_missing takes the container for one that is not
-- wanted.
abbrev next : Session World
next =
    (settle_containers one_network no_addresses 1 wanted by_id
      (record settled { existing = settled.daemon.0 })).1

by_id_disconnected : next.daemon.0 ≡ some (record old { containers = "web" ∷ [] })
unfolding settle_containers
by_id_disconnected = refl

-- A swarm that needs one tenth of a second to remove its network.
abbrev slow : Daemon
slow = record one_network { wait = λ s. (none, s.1) }

wait_until_gone-GoneAfter_example :
    wait_until_gone slow 2 wanted begun ≡ (ok tt, record begun { daemon = waited slow 1 before })
wait_until_gone-GoneAfter_example =
    wait_until_gone-GoneAfter slow 1 2 wanted begun (omega arith) ((old, refl), refl)
