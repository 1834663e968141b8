-- ===== src/Ethercat/Backend/States/Order.antt =====
-- The order of what a start and a stop ask for, and the loops of requests in it.
use heimasdk_snapshot_migrat.Prelude.{
  refl, arith, true, false, if◌then◌else◌, ℕ, zero, suc, ◌+◌, ◌≡◌, subst, inl, inr, Bool, List, [],
  ◌∷◌, ◌++◌, some, Bool-cases, Option-cases,
}
use mathlib.Core.Option.{some-injective}
use heimasdk_snapshot_migrat.Ethercat.Backend.States.{
  Event, request, thread_started, thread_joined, master_released, device_closed, lock_released,
  request_until, request_range, request_best_effort, request_range_best_effort,
}

-- The thread runs or not, or the resources were given back.
pub data Phase : Type 0 where
  idle running closed : Phase

-- Requests go out only before the resources are given back, and the master is released only when no
-- thread runs.
pub data Runs : Phase → List Event → Phase → Type 0 where
  done : {p : Phase} → Runs p [] p
  asks_idle :
      {slave state : ℕ} {es : List Event} {q : Phase}
      → Runs idle es q
      → Runs idle (request slave state ∷ es) q
  asks_running :
      {slave state : ℕ} {es : List Event} {q : Phase}
      → Runs running es q
      → Runs running (request slave state ∷ es) q
  starts : {es : List Event} {q : Phase} → Runs running es q → Runs idle (thread_started ∷ es) q
  joins : {es : List Event} {q : Phase} → Runs idle es q → Runs running (thread_joined ∷ es) q
  frees : {es : List Event} {q : Phase} → Runs closed es q → Runs idle (master_released ∷ es) q
  closes_idle : {es : List Event} {q : Phase} → Runs closed es q → Runs idle (device_closed ∷ es) q
  closes : {es : List Event} {q : Phase} → Runs closed es q → Runs closed (device_closed ∷ es) q
  unlocks_idle : {es : List Event} {q : Phase} → Runs closed es q → Runs idle (lock_released ∷ es) q
  unlocks : {es : List Event} {q : Phase} → Runs closed es q → Runs closed (lock_released ∷ es) q

pub Runs-append :
    {p q r : Phase} {xs ys : List Event} → Runs p xs q → Runs q ys r → Runs p (xs ++ ys) r
Runs-append done s = s
Runs-append (asks_idle r) s = asks_idle (Runs-append r s)
Runs-append (asks_running r) s = asks_running (Runs-append r s)
Runs-append (starts r) s = starts (Runs-append r s)
Runs-append (joins r) s = joins (Runs-append r s)
Runs-append (frees r) s = frees (Runs-append r s)
Runs-append (closes_idle r) s = closes_idle (Runs-append r s)
Runs-append (closes r) s = closes (Runs-append r s)
Runs-append (unlocks_idle r) s = unlocks_idle (Runs-append r s)
Runs-append (unlocks r) s = unlocks (Runs-append r s)

-- Which events end the use of a resource.
abbrev pub frees_master : Event → Bool
frees_master master_released = true
frees_master e = false

abbrev pub closes_device : Event → Bool
closes_device device_closed = true
closes_device e = false

abbrev pub unlocks_file : Event → Bool
unlocks_file lock_released = true
unlocks_file e = false

-- How many events of the trace pass the test.
unfoldable pub times : (Event → Bool) → List Event → ℕ
times test [] = 0
times test (e ∷ es) = let rest = times test es in if test e then suc rest else rest

pub times-append :
    (test : Event → Bool) (xs ys : List Event)
    → times test (xs ++ ys) ≡ times test xs + times test ys
unfolding times
times-append test [] ys = omega arith
times-append test (x ∷ xs) ys = elim (Bool-cases (test x)) [
  | inl e ↦ rw e (omega (arith, times-append test xs ys))
  | inr e ↦ rw e (times-append test xs ys)
]

-- Requests alone keep the phase.
pub data AllRequests : List Event → Type 0 where
  no_more : AllRequests []
  one_more :
      {slave state : ℕ} {es : List Event} → AllRequests es → AllRequests (request slave state ∷ es)

pub times-AllRequests :
    (test : Event → Bool) {es : List Event}
    → ((slave state : ℕ) → test (request slave state) ≡ false)
    → AllRequests es
    → times test es ≡ 0
unfolding times
times-AllRequests test h no_more = refl
times-AllRequests test h (one_more {slave} {state} a) =
    rw (h slave state) (times-AllRequests test h a)

pub AllRequests-append :
    {xs ys : List Event} → AllRequests xs → AllRequests ys → AllRequests (xs ++ ys)
AllRequests-append no_more b = b
AllRequests-append (one_more a) b = one_more (AllRequests-append a b)

pub requests_idle : {es : List Event} → AllRequests es → Runs idle es idle
requests_idle no_more = done
requests_idle (one_more a) = asks_idle (requests_idle a)

pub requests_running : {es : List Event} → AllRequests es → Runs running es running
requests_running no_more = done
requests_running (one_more a) = asks_running (requests_running a)

module _ (accepts : ℕ → ℕ → ℕ → Bool) where
  best_effort-AllRequests :
      (left slave state k : ℕ) → AllRequests (request_best_effort accepts left slave state k).0
  unfolding request_best_effort
  best_effort-AllRequests zero slave state k = no_more
  best_effort-AllRequests (suc left) slave state k = elim (Bool-cases (accepts slave state k)) [
    | inl e ↦ rw e (one_more no_more)
    | inr e ↦ rw e (one_more (best_effort-AllRequests left slave state (k + 1)))
  ]

  pub range_best_effort-AllRequests :
      (count slave state : ℕ) → AllRequests (request_range_best_effort accepts count slave state)
  unfolding request_range_best_effort
  range_best_effort-AllRequests zero slave state = no_more
  range_best_effort-AllRequests (suc count) slave state =
      AllRequests-append (best_effort-AllRequests 3 slave state 0)
        (range_best_effort-AllRequests count (slave + 1) state)

  pub until-AllRequests :
      (fuel slave state k : ℕ) {es : List Event}
      → request_until accepts fuel slave state k ≡ some es
      → AllRequests es
  unfolding request_until
  until-AllRequests zero slave state k e = cc
  until-AllRequests (suc fuel) slave state k e = elim (Bool-cases (accepts slave state k)) [
    | inl h ↦ subst AllRequests (some-injective _ _ (rw (h, request_until) at e)) (one_more no_more)
    | inr h ↦ elim (Option-cases (request_until accepts fuel slave state (k + 1))) [
      | inl n ↦ cc (rw (h, n, request_until) at e)
      | inr (rest, r) ↦
          subst AllRequests (some-injective _ _ (rw (h, r, request_until) at e))
            (one_more (until-AllRequests fuel slave state (k + 1) r))
    ]
  ]

  pub range-AllRequests :
      (fuel count slave state : ℕ) {es : List Event}
      → request_range accepts fuel count slave state ≡ some es
      → AllRequests es
  unfolding request_range
  range-AllRequests fuel zero slave state e = subst AllRequests (some-injective _ _ e) no_more
  range-AllRequests fuel (suc count) slave state e =
      elim (Option-cases (request_until accepts fuel slave state 0)) [
        | inl n ↦ cc (rw (n, request_range) at e)
        | inr (own, o) ↦ elim (Option-cases (request_range accepts fuel count (slave + 1) state)) [
          | inl n ↦ cc (rw (o, n, request_range) at e)
          | inr (rest, r) ↦ subst AllRequests (some-injective _ _ (rw (o, r, request_range) at e)) (
              AllRequests-append (until-AllRequests fuel slave state 0 o)
                (range-AllRequests fuel count (slave + 1) state r))
        ]
      ]
