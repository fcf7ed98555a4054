-- ===== src/Swarm/Down.antt =====
-- The rounds of `check_if_swarm_node_is_down`.
use openstack_osa_office_clu.Prelude.{
  ℕ, suc, zero, Bool, true, false, if◌then◌else◌, some, none, Option, String, string_eq, Result, ok,
  err, ◌≡◌, refl, sym, ap, ◌∙◌, arith, Bool-cases, inl, inr, larger, ◌<◌, ◌+◌,
}
use openstack_osa_office_clu.Prelude.Int.{ℤ, pos, negsuc}
use openstack_osa_office_clu.Prelude.Programs.{Program, Keeps}
use openstack_osa_office_clu.Swarm.{
  Client, Node, Raised, is_down, get_node_inspect, rounds, number_of_rounds, go_on, waited_before,
  from_node, this_node, check_if_swarm_node_is_down,
}

module _ (C : Client) (node_id : Option String) (s : C.State) where
  -- The swarm after this many waits.
  abbrev pub waits : ℕ → C.State
  waits zero = s
  waits (suc k) = C.wait (waits k)

  abbrev pub FoundAt : Bool → ℕ → Type 0
  FoundAt down k =
      (n : Node) × (get_node_inspect C node_id false (waits k) ≡ ok (some n)) × (is_down n ≡ down)

  abbrev pub UpBefore : ℕ → Type 0
  UpBefore zero = Unit
  UpBefore (suc k) = UpBefore k × FoundAt false k

  -- Where `n` rounds leave the swarm: one wait less.
  abbrev pub after_rounds : ℕ → C.State
  after_rounds zero = s
  after_rounds (suc k) = waits k

  -- The node is down in the last round made and in none before; or it is up in all `n` rounds.
  abbrev pub IsAnswer : ℕ → Bool → C.State → Type 0
  IsAnswer n true t = (k : ℕ) × (k < n) × (t ≡ waits k) × UpBefore k × FoundAt true k
  IsAnswer n false t = (t ≡ after_rounds n) × UpBefore n

  waited_before-after_rounds : (k : ℕ) → waited_before C k (after_rounds k) ≡ waits k
  waited_before-after_rounds zero = refl
  waited_before-after_rounds (suc k) = refl

  -- What a round was given, where the check returns.
  go_on-ok :
      (rest : Program Raised C.State Bool) (t u : C.State) (r : Result Raised (Option Node))
      (b : Bool)
      → go_on C rest t r ≡ (ok b, u)
      → (n : Node) × (r ≡ ok (some n)) × ((if is_down n then (ok true, t) else rest t) ≡ (ok b, u))
  go_on-ok rest t u (ok (some n)) b e = (n, refl, e)
  go_on-ok rest t u (ok none) b e = absurd (ground arith)
  go_on-ok rest t u (err x) b e = absurd (ground arith)

  abbrev answered : Bool → C.State → Result Raised Bool × C.State
  answered b t = (ok b, t)

  up_throughout :
      (n : ℕ) (b : Bool) (u : C.State)
      → UpBefore n
      → answered false (after_rounds n) ≡ (ok b, u)
      → IsAnswer n b u
  up_throughout n true u up e = absurd (ground arith)
  up_throughout n false u up e = (sym (ap (λ x. x.1) e), up)

  down_at_last :
      (k n : ℕ) (b : Bool) (u : C.State)
      → k < n
      → UpBefore k
      → FoundAt true k
      → answered true (waits k) ≡ (ok b, u)
      → IsAnswer n b u
  down_at_last k n true u l up d e = (k, l, sym (ap (λ x. x.1) e), up, d)
  down_at_last k n false u l up d e = absurd (ground arith)

  rounds-IsAnswer :
      (left retry n : ℕ) (b : Bool) (u : C.State)
      → left + retry ≡ n
      → UpBefore retry
      → rounds C left retry node_id (after_rounds retry) ≡ (ok b, u)
      → IsAnswer n b u
  unfolding rounds
  rounds-IsAnswer zero retry n b u h up e =
      let same : n ≡ retry = omega arith in rw same (up_throughout retry b u up e)
  rounds-IsAnswer (suc left) retry n b u h up e =
      let rest = rounds C left (suc retry) node_id in
      let begun : go_on C rest (waits retry) (get_node_inspect C node_id false (waits retry))
          ≡ (ok b, u) =
        ap (λ t. go_on C rest t (get_node_inspect C node_id false t))
          (sym (waited_before-after_rounds retry))
        ∙ e in
      let (m, found, then_rest) = go_on-ok rest (waits retry) u _ b begun in
      elim (Bool-cases (is_down m)) [
        | inl d ↦ down_at_last retry n b u (omega arith) up (m, found, d) (rw d at then_rest)
        | inr d ↦
            rounds-IsAnswer left (suc retry) n b u (omega arith) (up, (m, found, d))
              (rw d at then_rest)
      ]

-- `max(1, n)`
abbrev pub at_least_once : ℤ → ℕ
at_least_once (pos n) = larger n 1
at_least_once (negsuc n) = 1

number_of_rounds_lem : (n : ℤ) → number_of_rounds n ≡ at_least_once n
number_of_rounds_lem (pos n) = refl
number_of_rounds_lem (negsuc n) = refl

-- `check_if_swarm_node_is_down` of a given node: where it returns, it has asked for the node at
-- least once and at most `max(1, repeat_check)` times, with a wait before each time but the first.
-- True says that the node was down the last time and up before; False that it was up each time of
-- `max(1, repeat_check)`.
pub check_if_swarm_node_is_down-IsAnswer :
    (C : Client) (id : String) (repeat_check : ℤ) (s u : C.State) (b : Bool)
    → check_if_swarm_node_is_down C (some id) repeat_check s ≡ (ok b, u)
    → IsAnswer C (some id) s (at_least_once repeat_check) b u
unfolding check_if_swarm_node_is_down
check_if_swarm_node_is_down-IsAnswer C id repeat_check s u b e =
    let n = number_of_rounds repeat_check in
    rw (sym (number_of_rounds_lem repeat_check))
      (rounds-IsAnswer C (some id) s n 0 n b u (omega arith) tt e)

module _ (C : Client) where
  abbrev Unmoved : {A : Type 0} → Program Raised C.State A → Type 0
  Unmoved m = Keeps (λ s. s) m

  go_on-Unmoved :
      (rest : Program Raised C.State Bool) (s : C.State) (r : Result Raised (Option Node))
      → Unmoved rest
      → (go_on C rest s r).1 ≡ s
  go_on-Unmoved rest s (ok (some n)) h = down (is_down n)
    where
      answered : Bool → Result Raised Bool × C.State
      answered b = (ok b, s)

      down : (b : Bool) → (if b then answered true else rest s).1 ≡ s
      down true = refl
      down false = h s
  go_on-Unmoved rest s (ok none) h = refl
  go_on-Unmoved rest s (err e) h = refl

  one_round-Unmoved : (node_id : Option String) → Unmoved (rounds C 1 0 node_id)
  unfolding rounds
  one_round-Unmoved node_id s =
      go_on-Unmoved (rounds C 0 1 node_id) s (get_node_inspect C node_id false s) (λ t. refl)

  from_node_unmoved :
      (s : C.State) (r : Result Raised (Option String)) → (from_node C (rounds C 1 0) s r).1 ≡ s
  from_node_unmoved s (ok node_id) = one_round-Unmoved node_id s
  from_node_unmoved s (err e) = refl

  -- One check of the host's own node waits for nothing.
  pub one_check-Unmoved : Unmoved (check_if_swarm_node_is_down C none (pos 1))
  unfolding check_if_swarm_node_is_down
  one_check-Unmoved s = from_node_unmoved s (this_node C none s)
