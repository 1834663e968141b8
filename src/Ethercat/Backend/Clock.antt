-- ===== src/Ethercat/Backend/Clock.antt =====
-- Times and settings of the EtherCAT backend. A `timespec` of the monotonic clock has no negative
-- part. An environment variable is an argument: its text's number, or `none` where it is not set, is
-- empty or does not start with a number.
use heimasdk_snapshot_migrat.Prelude.{
  ℕ, zero, suc, ◌+◌, ◌-◌, ◌*◌, ◌≤◌, ◌<◌, ◌≡◌, Bool, ◌&&◌, Option, none, some, if◌then◌else◌, ltb,
  arith, get_elem?,
}
use heimasdk_snapshot_migrat.Prelude.Int.{ℤ, pos, negsuc, leb_ℤ, ltb_ℤ, ◌==ℤ◌, ◌*ℤ◌, ◌≤ℤ◌}
use heimasdk_snapshot_migrat.Config.{Config}

pub record Timespec : Type 0 where
  pub sec : ℕ
  pub nsec : ℕ

abbrev pub nsec_per_sec : ℕ
nsec_per_sec = 1_000_000_000

pub timespec_to_ns : Timespec → ℕ
timespec_to_ns value = value.sec * nsec_per_sec + value.nsec

-- The loop of `addNs`, for at most `fuel` rounds.
pub carry_seconds : ℕ → Timespec → Timespec
carry_seconds zero time = time
carry_seconds (suc fuel) time =
    let rest =
      carry_seconds fuel (record { sec = time.sec + 1; nsec = time.nsec - nsec_per_sec }) in
    if ltb time.nsec nsec_per_sec then time else rest

-- Every round takes a second off, so there are no more rounds than nanoseconds.
pub add_ns : Timespec → ℕ → Timespec
unfolding carry_seconds
add_ns time ns = carry_seconds (time.nsec + ns) (record time { nsec = time.nsec + ns })

-- A time with less than a second in its nanoseconds.
abbrev pub IsNormal : Timespec → Type 0
IsNormal time = time.nsec < nsec_per_sec

carry_seconds_lem :
    (fuel : ℕ) (time : Timespec)
    → time.nsec ≤ fuel
    → IsNormal (carry_seconds fuel time)
      × (timespec_to_ns (carry_seconds fuel time) ≡ timespec_to_ns time)
unfolding carry_seconds timespec_to_ns
carry_seconds_lem zero time h = ground arith
carry_seconds_lem (suc fuel) time h =
    ground (
      arith,
      carry_seconds_lem fuel (record { sec = time.sec + 1; nsec = time.nsec - nsec_per_sec }),
    )

-- `addNs` ends, whatever the time and the nanoseconds to add: the fuel that it is given here is
-- enough for its loop to leave by its test, with the sum of both, less than a second of it in the
-- nanoseconds.
pub add_ns_ends :
    (time : Timespec) (ns : ℕ)
    → IsNormal (add_ns time ns) × (timespec_to_ns (add_ns time ns) ≡ timespec_to_ns time + ns)
unfolding add_ns timespec_to_ns
add_ns_ends time ns =
    let h =
      carry_seconds_lem (time.nsec + ns) (record time { nsec = time.nsec + ns }) (omega arith) in
    ground (arith, h)

pub elapsed_ns_after : Timespec → Timespec → ℕ
unfolding timespec_to_ns
elapsed_ns_after planned actual =
    if ltb (timespec_to_ns planned) (timespec_to_ns actual)
    then timespec_to_ns actual - timespec_to_ns planned
    else 0

-- `envInt` of a variable that reads as a number of 32 bits.
abbrev pub env_int : Option ℤ → ℤ → ℤ
env_int none fallback = fallback
env_int (some value) fallback = value

module _ {F : Type 0} where
  abbrev pub period_ns : Config F → ℕ
  period_ns config = elim config.period_ns [
    | pos n ↦ if ltb 0 n then n else 1_000_000
    | negsuc n ↦ 1_000_000
  ]

  unfoldable pub domain_division : Config F → ℤ → ℤ
  domain_division config (negsuc n) = pos 1
  domain_division config (pos index) = elim (get_elem? config.domain_divisions index) [
    | none ↦ pos 1
    | some division ↦ if ltb_ℤ (pos 1) division then division else pos 1
  ]

  pub domain_division-le : (config : Config F) (id : ℤ) → pos 1 ≤ℤ domain_division config id
  unfolding domain_division
  domain_division-le config (negsuc n) = omega arith
  domain_division-le config (pos index) = ground arith

  unfoldable pub ethercat_dc_enabled : Option ℤ → Config F → Bool
  ethercat_dc_enabled disable_dc config =
      config.ethercat_dc && (env_int disable_dc (pos 0) ==ℤ pos 0)

-- `commandTimeout` and `startupReadyTimeout`, in nanoseconds; zero turns the test off.
abbrev pub timeout_ns : ℤ → ℤ
timeout_ns timeout_ms = if leb_ℤ timeout_ms (pos 0) then pos 0 else timeout_ms *ℤ pos 1_000_000

pub command_timeout : Option ℤ → ℤ
command_timeout setting = timeout_ns (env_int setting (pos 100))

unfoldable pub startup_ready_timeout : Option ℤ → ℤ
startup_ready_timeout setting = timeout_ns (env_int setting (pos 30000))

abbrev pub startup_ready_frames : Option ℤ → ℕ
startup_ready_frames setting = elim (env_int setting (pos 20)) [
  | pos n ↦ if ltb 0 n then n else 20
  | negsuc n ↦ 20
]
