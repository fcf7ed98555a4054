-- ===== src/Container/Waiting.antt =====
-- `wait_for_state`: the loop, what it waits for, and what it returns.
use openstack_osa_office_clu.Prelude.{
  option_beq, ℕ, zero, suc, ◌<◌, Bool, true, false, not, ◌||◌, List, if◌then◌else◌, some, none,
  Option, String, string_eq, ok, any, ◌≡◌, refl, ap, ◌∙◌, arith,
}
use openstack_osa_office_clu.Prelude.Programs.{continue_with}
use openstack_osa_office_clu.Prelude.Methods.{pure, raise, modify, reads, ◌>>=◌, ◌>>◌}
use openstack_osa_office_clu.Container.{Container, Inspection, StateInfo}
use openstack_osa_office_clu.Container.Driver.{
  Clock, Driver, vanished, unexpected_state, timed_out, out_of_patience, uncaught, Here, Call, asks,
  or_stop,
}

-- The keyword arguments.
pub record Wait (Seconds : Type 0) : Type 0 where
  pub complete_states : Option (List (Option String))
  pub wait_states : Option (List (Option String))
  pub accept_removal : Bool
  pub max_wait : Option Seconds
  pub health_state : Bool

-- `state in states`, where the states are given; `otherwise` where they are not.
abbrev pub within_states : Bool → Option (List (Option String)) → Option String → Bool
within_states otherwise none state = otherwise
within_states otherwise (some states) state = any (option_beq state) states

abbrev pub status_in : Bool → Option StateInfo → Option String
status_in health none = none
status_in health (some s) = if health then s.health else s.status

module _ (K : Clock) (D : Driver K.Seconds) (Value : Type 0) (w : Wait K.Seconds)
    (id : String) where
  abbrev pub status_of : Inspection → Option String
  status_of i = status_in w.health_state i.state

  abbrev pub is_complete : Inspection → Bool
  is_complete i = within_states false w.complete_states (status_of i)

  abbrev pub is_expected : Inspection → Bool
  is_expected i = within_states true w.wait_states (status_of i)

  abbrev sleep : K.Seconds → Call D Value (Unit {0})
  sleep delay = modify (λ s. record s { daemon = D.sleep delay s.daemon })

  abbrev pub Round : Type 0
  Round = K.Seconds → K.Seconds → Call D Value Container

  -- The wait of one round, and the round after it.
  abbrev pub wait_then : Round → Round
  wait_then again delay total = sleep delay >> again (K.longer delay) (K.add total delay)

  abbrev pub wait_at_most : Option K.Seconds → Round → Round
  wait_at_most none again delay total = wait_then again delay total
  wait_at_most (some limit) again delay total =
      if K.above total limit || K.too_short delay
      then raise (timed_out id)
      else wait_then again
          (if K.above (K.add total delay) limit then K.minus limit total else delay) total

  abbrev pub look_at : Round → K.Seconds → K.Seconds → Container → Call D Value Container
  look_at again delay total none = if w.accept_removal then pure none else raise (vanished id)
  look_at again delay total (some i) =
      if is_complete i
      then pure (some i)
      else if not (is_expected i)
      then raise (unexpected_state id)
      else wait_at_most w.max_wait again delay total

  -- The loop, on fuel.
  unfoldable pub wait_rounds : ℕ → Round
  wait_rounds zero delay total = raise (out_of_patience id)
  wait_rounds (suc fuel) delay total =
      asks D Value (D.inspect_container_by_id id) >>= look_at (wait_rounds fuel) delay total

  unfoldable pub wait_for_state : ℕ → Call D Value Container
  unfolding wait_rounds
  wait_for_state fuel = wait_rounds fuel K.one_second K.zero_seconds

  -- What the loop is to return: a container in a state to wait for, or none where it may go.
  abbrev pub IsAwaited : Container → Type 0
  IsAwaited none = w.accept_removal ≡ true
  IsAwaited (some i) = is_complete i ≡ true

  -- The container is not there yet, and in a state in which that is no error.
  abbrev pub IsPending : Container → Type 0
  IsPending none = ⊥
  IsPending (some i) = (is_complete i ≡ false) × (is_expected i ≡ true)

  -- The daemon after `k` waits, the first of them for `delay`.
  abbrev pub slept : ℕ → K.Seconds → D.State → D.State
  slept zero delay s = s
  slept (suc k) delay s = slept k (K.longer delay) (D.sleep delay s)

  -- The loop sees pending states `k` times, and then what is awaited.
  abbrev pub Comes : ℕ → K.Seconds → D.State → Container → Type 0
  Comes zero delay s r = (D.inspect_container_by_id id s ≡ ok r) × IsAwaited r
  Comes (suc k) delay s r =
      (c : Container) × (D.inspect_container_by_id id s ≡ ok c)
      × IsPending c
      × Comes k (K.longer delay) (D.sleep delay s) r

  asked :
      (s : Here D Value) (again : Round) (delay total : K.Seconds) (c : Container)
      → D.inspect_container_by_id id s.daemon ≡ ok c
      → (asks D Value (D.inspect_container_by_id id) >>= look_at again delay total) s
        ≡ look_at again delay total c s
  unfolding ◌>>=◌ reads
  asked s again delay total c e =
      ap (λ r. continue_with (look_at again delay total) (or_stop D Value uncaught r, s)) e

  awaited_at_once :
      (s : Here D Value) (again : Round) (delay total : K.Seconds) (c : Container)
      → IsAwaited c
      → look_at again delay total c s ≡ (ok c, s)
  unfolding pure
  awaited_at_once s again delay total none h = rw h refl
  awaited_at_once s again delay total (some i) h = rw h refl

  pending_waits :
      (s : Here D Value) (again : Round) (delay total : K.Seconds) (c : Container)
      → w.max_wait ≡ none
      → IsPending c
      → look_at again delay total c s
        ≡ again (K.longer delay) (K.add total delay) (record s { daemon = D.sleep delay s.daemon })
  unfolding ◌>>=◌ modify
  pending_waits s again delay total none m h = absurd h
  pending_waits s again delay total (some i) m (h, k) = rw (h, k, m) refl

  wait_rounds-Comes :
      (k fuel : ℕ) (delay total : K.Seconds) (s : Here D Value) (r : Container)
      → w.max_wait ≡ none
      → k < fuel
      → Comes k delay s.daemon r
      → wait_rounds fuel delay total s ≡ (ok r, record s { daemon = slept k delay s.daemon })
  unfolding wait_rounds
  wait_rounds-Comes k zero delay total s r m l h = absurd (omega arith)
  wait_rounds-Comes zero (suc fuel) delay total s r m l (h, a) =
      asked s (wait_rounds fuel) delay total r h
      ∙ awaited_at_once s (wait_rounds fuel) delay total r a
  wait_rounds-Comes (suc k) (suc fuel) delay total s r m l (c, h, p, later) =
      asked s (wait_rounds fuel) delay total c h
      ∙ pending_waits s (wait_rounds fuel) delay total c m p
      ∙ wait_rounds-Comes k fuel (K.longer delay) (K.add total delay)
          (record s { daemon = D.sleep delay s.daemon }) r m (omega arith) later

  -- Without a limit in seconds: where the container is pending `k` times and then as awaited, the
  -- loop returns it after `k` waits, whenever it has fuel for one round more.
  pub wait_for_state-Comes :
      (k fuel : ℕ) (s : Here D Value) (r : Container)
      → w.max_wait ≡ none
      → k < fuel
      → Comes k K.one_second s.daemon r
      → wait_for_state fuel s ≡ (ok r, record s { daemon = slept k K.one_second s.daemon })
  unfolding wait_for_state
  wait_for_state-Comes k fuel s r m l h =
      wait_rounds-Comes k fuel K.one_second K.zero_seconds s r m l h
