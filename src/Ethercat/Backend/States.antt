-- ===== src/Ethercat/Backend/States.antt =====
-- The requests for an application layer state: the loops that retry until the slave accepts, and the
-- ones that give up. `accepts slave state attempt` is the answer of the kernel to an attempt.
pub mod Order
use mathlib.Core.Bool.{false≢true}
use heimasdk_snapshot_migrat.Prelude.{
  ℕ_discrete, Option-cases, ◌↔◌, ℕ, zero, suc, ◌+◌, ◌≤◌, ◌<◌, ◌≡◌, refl, sym, ◌∙◌, inl, inr, Bool,
  true, false, List, [], ◌∷◌, ◌++◌, Option, none, some, arith, Bool-cases, if◌then◌else◌,
}

-- What the backend asks of its surroundings, in order: a state of a slave, and the steps that a start
-- or a stop undoes.
pub data Event : Type 0 where
  request : ℕ → ℕ → Event
  thread_started thread_joined master_released device_closed lock_released : Event

-- `EC_STATE` values of the master library.
abbrev pub init_state : ℕ
init_state = 0x01

abbrev pub preop_state : ℕ
preop_state = 0x02

abbrev pub safeop_state : ℕ
safeop_state = 0x04

abbrev pub op_state : ℕ
op_state = 0x08

module _ (accepts : ℕ → ℕ → ℕ → Bool) where
  -- `while (!requestSlaveState(...))` from attempt `k` on, for at most `fuel` attempts: `none` says
  -- that the loop still runs.
  unfoldable pub request_until : ℕ → ℕ → ℕ → ℕ → Option (List Event)
  request_until zero slave state k = none
  request_until (suc fuel) slave state k =
      let rest = request_until fuel slave state (k + 1) in
      if accepts slave state k
      then some (request slave state ∷ [])
      else elim rest [ none ↦ none | some events ↦ some (request slave state ∷ events) ]

  -- `requestSlaveRangeState` over the slaves from `slave` on, `count` of them; a position on the bus
  -- fits the `unsigned short` that each request casts it to.
  unfoldable pub request_range : ℕ → ℕ → ℕ → ℕ → Option (List Event)
  request_range fuel zero slave state = some []
  request_range fuel (suc count) slave state =
      let rest = request_range fuel count (slave + 1) state in
      elim (request_until fuel slave state 0) [
        | none ↦ none
        | some events ↦ elim rest [ none ↦ none | some more ↦ some (events ++ more) ]
      ]

  -- `requestSlaveStateBestEffort` with `left` attempts to go from attempt `k` on.
  pub request_best_effort : ℕ → ℕ → ℕ → ℕ → List Event × Bool
  request_best_effort zero slave state k = ([], false)
  request_best_effort (suc left) slave state k =
      let (events, done) = request_best_effort left slave state (k + 1) in
      if accepts slave state k
      then (request slave state ∷ [], true)
      else (request slave state ∷ events, done)

  -- `requestSlaveRangeStateBestEffort`, which goes on after a slave that did not accept.
  pub request_range_best_effort : ℕ → ℕ → ℕ → List Event
  request_range_best_effort zero slave state = []
  request_range_best_effort (suc count) slave state =
      let (events, done) = request_best_effort 3 slave state 0 in
      events ++ request_range_best_effort count (slave + 1) state

  -- The slave accepts one of the attempts from `k` on that are below `bound`.
  abbrev pub AcceptsBefore : ℕ → ℕ → ℕ → ℕ → Type 0
  AcceptsBefore bound slave state k =
      (j : ℕ) × (k ≤ j) × (j < bound) × (accepts slave state j ≡ true)

  request_until-ends :
      (fuel slave state k bound : ℕ)
      → k + fuel ≡ bound
      → AcceptsBefore bound slave state k
      → (events : List Event) × (request_until fuel slave state k ≡ some events)
  unfolding request_until
  request_until-ends zero slave state k bound q (j, a, b, e) = absurd (omega arith)
  request_until-ends (suc fuel) slave state k bound q (j, a, b, e) =
      elim (Bool-cases (accepts slave state k)) [
        | inl h ↦ (request slave state ∷ [], rw h refl)
        | inr h ↦
            let later : k + 1 ≤ j = elim (ℕ_discrete k j) [
              | yes p ↦ absurd (false≢true (sym h ∙ rw p e))
              | no d ↦ omega arith
            ] in
            let (events, r) =
              request_until-ends fuel slave state (k + 1) bound (omega arith)
                (j, later, omega arith, e) in
            (request slave state ∷ events, rw (h, r) refl)
      ]

  request_until-accepted :
      (fuel slave state k bound : ℕ) {events : List Event}
      → k + fuel ≡ bound
      → request_until fuel slave state k ≡ some events
      → AcceptsBefore bound slave state k
  unfolding request_until
  request_until-accepted zero slave state k bound q e = cc
  request_until-accepted (suc fuel) slave state k bound q e =
      elim (Bool-cases (accepts slave state k)) [
        | inl h ↦ (k, omega arith, omega arith, h)
        | inr h ↦ elim (Option-cases (request_until fuel slave state (k + 1))) [
          | inl n ↦ cc (rw (h, n) at e)
          | inr (rest, r) ↦
              let (j, a, b, c) =
                request_until-accepted fuel slave state (k + 1) bound (omega arith) r in
              (j, omega arith, omega arith, c)
        ]
      ]

  -- The loops over the slaves from `slave` on end, with enough fuel, exactly when each of the slaves
  -- accepts one of as many attempts; a slave that never accepts keeps the caller for ever.
  pub request_range_ends :
      (fuel count slave state : ℕ)
      → ((events : List Event) × (request_range fuel count slave state ≡ some events))
        ↔ ((i : ℕ) → slave ≤ i → i < slave + count → AcceptsBefore fuel i state 0)
  unfolding request_range
  request_range_ends fuel zero slave state = (λ h i a b. absurd (omega arith), λ h. ([], refl))
  request_range_ends fuel (suc count) slave state =
      let (f, g) = request_range_ends fuel count (slave + 1) state in
      (
        λ (events, e). elim (Option-cases (request_until fuel slave state 0)) [
          | inl n ↦ cc (rw (n, request_range) at e)
          | inr (own, o) ↦ elim (Option-cases (request_range fuel count (slave + 1) state)) [
            | inl n ↦ cc (rw (o, n, request_range) at e)
            | inr (rest, r) ↦ λ i a b. elim (ℕ_discrete slave i) [
              | yes p ↦ rw (← p) (request_until-accepted fuel slave state 0 fuel (omega arith) o)
              | no d ↦ f (rest, r) i (omega arith) (omega arith)
            ]
          ]
        ],
        λ h.
            let (own, o) =
              request_until-ends fuel slave state 0 fuel (omega arith)
                (h slave (omega arith) (omega arith)) in
            let (rest, r) = g (λ i a b. h i (omega arith) (omega arith)) in
            (own ++ rest, rw (o, r, request_range) refl),
      )
