-- ===== src/Volume/Examples.antt =====
-- The module docker_volume against a daemon that keeps its volumes in a list and shows their options
-- in another order, and the theorems at
-- runs of it.
use openstack_osa_office_clu.Prelude.{
  true, false, List, [], ◌∷◌, some, none, Option, String, string_eq, ◌=?◌, if◌then◌else◌, Result,
  ok, err, ◌≡◌, ◌≢◌, refl, arith, ap, ◌∙◌, sym, ℕ, beq_refl,
}
use openstack_osa_office_clu.Prelude.Dict.{Dict, lookup, insert, lookup-insert, lookup-cons}
use openstack_osa_office_clu.Volume.{
  Daemon, Volume, Manager, Params, CreateData, Run, run, get_existing_volume, find_volume, filled,
  or_nil, creation, always, options_changed, start, present, absent, created, removed,
}
use openstack_osa_office_clu.Volume.CheckMode.{in_check_mode, run_check, run-in_check_mode}
use openstack_osa_office_clu.Volume.Effect.{IsMadeFrom, IsLawful, IsPlain, run_absent, run_twice}

abbrev without : String → List Volume → List Volume
without name [] = []
without name (v ∷ vs) = if v.name =? name then without name vs else v ∷ without name vs

abbrev find : String → List Volume → Option Volume
find name [] = none
find name (v ∷ vs) = if v.name =? name then some v else find name vs

-- The same dict in another order: an entry that is inserted into a dict goes to its end.
abbrev reordered : Dict String String → Dict String String
unfolding insert
reordered [] = []
reordered ((k, v) ∷ d) = insert k v (reordered d)

lookup-reordered : (k : String) (d : Dict String String) → lookup k (reordered d) ≡ lookup k d
unfolding reordered
lookup-reordered k [] = refl
lookup-reordered k ((j, v) ∷ d) =
    ground (arith, lookup-insert k j v (reordered d), lookup-cons k j v d, lookup-reordered k d)

abbrev reordered_labels : Option (Dict String String) → Option (Dict String String)
reordered_labels none = none
reordered_labels (some d) = some (reordered d)

lookup-reordered_labels :
    (k : String) (o : Option (Dict String String))
    → lookup k (or_nil (reordered_labels o)) ≡ lookup k (or_nil o)
lookup-reordered_labels k none = refl
lookup-reordered_labels k (some d) = lookup-reordered k d

abbrev made : CreateData → Volume
made c = record {
  name = c.name;
  driver = if filled c.driver then c.driver else "local";
  options = some (reordered c.driver_opts);
  labels = reordered_labels c.labels;
}

abbrev make : CreateData → List Volume → Result ℕ String × List Volume
make c s = elim (find c.name s) [ none ↦ (ok c.name, made c ∷ s) | some v ↦ (ok c.name, s) ]

make_free :
    (c : CreateData) (s : List Volume) → find c.name s ≡ none → make c s ≡ (ok c.name, made c ∷ s)
make_free c s e = ground arith

-- A call that fails answers with the HTTP status 404.
abbrev listing : Daemon
listing = record {
  State = List Volume;
  ApiError = ℕ;
  list_volumes = λ s. ok (some s);
  inspect_volume = λ name s. elim (find name s) [ none ↦ err 404 | some v ↦ ok v ];
  create_volume = make;
  delete_volume =
      λ name s. elim (find name s) [ none ↦ (err 404, s) | some v ↦ (ok tt, without name s) ];
}

find_volume_eq : (name : String) (s : List Volume) → find_volume listing name s ≡ find name s
unfolding find_volume
find_volume_eq name [] = refl
find_volume_eq name (v ∷ s) = ground (arith, find_volume_eq name s)

find-without : (name : String) (s : List Volume) → find name (without name s) ≡ none
find-without name [] = refl
find-without name (v ∷ s) = ground (arith, find-without name s)

get_existing_volume_eq :
    (p : Params) (s : List Volume)
    → get_existing_volume listing p s ≡ (ok (find p.volume_name s), s)
unfolding get_existing_volume
get_existing_volume_eq p s = ap (λ x. (ok x, s)) (find_volume_eq p.volume_name s)

made-IsMadeFrom : (c : CreateData) → IsMadeFrom c (made c)
made-IsMadeFrom c = record {
  same_name = refl;
  same_driver = λ h. rw h refl;
  same_options = λ k. lookup-reordered k c.driver_opts;
  same_labels = λ k. lookup-reordered_labels k c.labels;
}

listed :
    (p : Params) (s : List Volume) (x : Option Volume)
    → find p.volume_name s ≡ x
    → get_existing_volume listing p s ≡ (ok x, s)
listed p s x e = get_existing_volume_eq p s ∙ ap (λ y. (ok y, s)) e

find-made : (c : CreateData) (s : List Volume) → find c.name (made c ∷ s) ≡ some (made c)
find-made c s = rw (beq_refl c.name) refl

abbrev shown : Run listing (Option Volume) → Option Volume
shown (ok v, s) = v
shown (err e, s) = none

create_listed :
    (p : Params) (s s' : List Volume) {name : String}
    → get_existing_volume listing p s ≡ (ok none, s)
    → listing.create_volume (creation listing p) s ≡ (ok name, s')
    → (v : Volume) × (get_existing_volume listing p s' ≡ (ok (some v), s'))
      × IsMadeFrom (creation listing p) v
create_listed p s s' h c =
    let c0 = creation listing p in
    let free : find p.volume_name s ≡ none = ap shown (sym (get_existing_volume_eq p s) ∙ h) in
    let grown : s' ≡ made c0 ∷ s = sym (ap (λ r. r.1) c) ∙ ap (λ r. r.1) (make_free c0 s free) in
    (
      made c0,
      rw grown (listed p (made c0 ∷ s) (some (made c0)) (find-made c0 s)),
      made-IsMadeFrom c0,
    )

delete_gone :
    (p : Params) (s s' : List Volume)
    → listing.delete_volume p.volume_name s ≡ (ok tt, s')
    → get_existing_volume listing p s' ≡ (ok none, s')
delete_gone p s s' h =
    let gone : s' ≡ without p.volume_name s = ground arith in
    rw gone (listed p (without p.volume_name s) none (find-without p.volume_name s))

listing-IsLawful : IsLawful listing
listing-IsLawful = record {
  created_listed = λ p s s' h c. create_listed p s s' h c;
  deleted_gone = λ p s s' h. delete_gone p s s' h;
}

abbrev wanted : Params
wanted = record {
  volume_name = "data";
  driver = "local";
  driver_options = ("type", "tmpfs") ∷ ("device", "tmpfs") ∷ [];
  labels = some (("owner", "ops") ∷ []);
  recreate = options_changed;
  target = present;
  debug = false;
  check_mode = false;
  diff = true;
}

-- A volume of the same name with other options.
abbrev old : Volume
old = record {
  name = "data";
  driver = "local";
  options = none;
  labels = some (("owner", "dev") ∷ []);
}

abbrev other : Volume
other = record { name = "cache"; driver = "local"; options = none; labels = none }

abbrev before : List Volume
before = other ∷ old ∷ []

abbrev after : List Volume
after = made (creation listing wanted) ∷ other ∷ []

abbrev unwanted : Params
unwanted = record wanted { target = absent }

abbrev manager_of : Run listing Manager → Manager
manager_of (ok m, s) = m
manager_of (err e, s) = start listing none

wanted-IsPlain : IsPlain wanted
unfolding lookup
wanted-IsPlain = record {
  options_nodup = (refl, (refl, tt));
  options_filled = (refl, (refl, tt));
  labels_nodup = (refl, tt);
}

options_changed_no : options_changed ≢ always
options_changed_no e = absurd (ground arith)

-- The volume is made anew, since its options and labels differ.
run-wanted : (run listing wanted before).1 ≡ after
unfolding run
run-wanted = refl

run_check_example : (run listing (in_check_mode wanted) before).1 ≡ before
run_check_example = run_check listing (in_check_mode wanted) refl before

run-in_check_mode_example :
    (m' : Manager) × (run listing (in_check_mode wanted) before ≡ (ok m', before))
    × (m'.changed ≡ true)
    × (m'.actions ≡ removed "data" ∷ created "data" "local" ∷ [])
unfolding run
run-in_check_mode_example = run-in_check_mode listing wanted before refl

run_absent_example : get_existing_volume listing unwanted (other ∷ []) ≡ (ok none, other ∷ [])
unfolding run
run_absent_example = run_absent listing unwanted refl before (other ∷ []) listing-IsLawful refl refl

run_twice_example :
    (n : Manager) × (run listing wanted after ≡ (ok n, after))
    × (n.changed ≡ false)
    × (n.actions ≡ [])
unfolding run
run_twice_example =
    run_twice listing wanted refl before after listing-IsLawful wanted-IsPlain refl
      options_changed_no refl
