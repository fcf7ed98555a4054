-- ===== src/Container/Polling.antt =====
-- The loop of `wait_for_state`, and what it keeps.
use openstack_osa_office_clu.Prelude.{
  ℕ, zero, suc, ◌||◌, some, none, Option, String, Bool-cases, inl, inr,
}
use openstack_osa_office_clu.Prelude.Hoare.{
  Holds, holds_rules, pure-Holds, raise-Holds, reads-Holds, bind-Holds,
}
use openstack_osa_office_clu.Container.{Container}
use openstack_osa_office_clu.Container.Driver.{Clock, Driver, Here}
use openstack_osa_office_clu.Container.Waiting.{
  Wait, wait_rounds, wait_for_state, is_complete, is_expected, look_at, wait_at_most, Round,
}

module _ (K : Clock) (D : Driver K.Seconds) (Value : Type 0) (w : Wait K.Seconds) (id : String)
    (I : Here D Value → Type 0)
    (sleeps : (s : Here D Value) (d : D.State) → I s → I (record s { daemon = d })) where
  wait_at_most-Holds :
      (limit : Option K.Seconds) (again : Round K D Value w id) (delay total : K.Seconds)
      → ((delay total : K.Seconds) → Holds I (again delay total))
      → Holds I (wait_at_most K D Value w id limit again delay total)
  wait_at_most-Holds none again delay total h = search (holds_rules, sleeps)
  wait_at_most-Holds (some limit) again delay total h =
      elim (Bool-cases (K.above total limit || K.too_short delay)) [
        | inl e ↦ rw e (raise-Holds _)
        | inr e ↦ rw e (search (holds_rules, sleeps))
      ]

  look_at-Holds :
      (c : Container) (again : Round K D Value w id) (delay total : K.Seconds)
      → ((delay total : K.Seconds) → Holds I (again delay total))
      → Holds I (look_at K D Value w id again delay total c)
  look_at-Holds none again delay total h = elim (Bool-cases w.accept_removal) [
    | inl e ↦ rw e (pure-Holds _)
    | inr e ↦ rw e (raise-Holds _)
  ]
  look_at-Holds (some i) again delay total h = elim (Bool-cases (is_complete K D Value w id i)) [
    | inl c ↦ rw c (pure-Holds _)
    | inr c ↦ elim (Bool-cases (is_expected K D Value w id i)) [
      | inl x ↦ rw (c, x) (wait_at_most-Holds w.max_wait again delay total h)
      | inr x ↦ rw (c, x) (raise-Holds _)
    ]
  ]

  wait_rounds-Holds :
      (fuel : ℕ) (delay total : K.Seconds) → Holds I (wait_rounds K D Value w id fuel delay total)
  unfolding wait_rounds
  wait_rounds-Holds zero delay total = raise-Holds _
  wait_rounds-Holds (suc fuel) delay total =
      bind-Holds (reads-Holds _) (λ c. look_at-Holds c _ delay total (wait_rounds-Holds fuel))

  pub wait_for_state-Holds : (fuel : ℕ) → Holds I (wait_for_state K D Value w id fuel)
  unfolding wait_for_state
  wait_for_state-Holds fuel = wait_rounds-Holds fuel K.one_second K.zero_seconds
