-- ===== src/Driver/Reading.antt =====
-- `getActuals` and `getEncoderCounts` of src/rmd_driver_sdk.cpp.
use heimasdk_snapshot_migrat.Prelude.{
  ℕ, ◌+◌, not, ◌||◌, List, [], ◌∷◌, map, none, some, Result, ok, err, ◌>>=◌, if◌then◌else◌, length,
  get_elem?, set,
}
use heimasdk_snapshot_migrat.Prelude.Int.{ℤ, neg_ℤ}
use heimasdk_snapshot_migrat.Motor.{Float}
use heimasdk_snapshot_migrat.Status.{BackendStatus}
use heimasdk_snapshot_migrat.Registry.{RuntimeMotor, MotorRegistry}
use heimasdk_snapshot_migrat.Ethercat.Frames.{ActualFrame}
use heimasdk_snapshot_migrat.Driver.{
  PublicActual, BackendRuntime, Driver, DriverError, backend_missing, motor_missing, int_min,
  is_ethercat, accepts, copy_public_actual, default_public_actual, to_public_actual,
}

module _ {F : Type 0} ⦃fl : Float F⦄ where
  -- The data and the count of motors that are stale, over the motors of one backend.
  unfoldable pub get_motors :
      List (RuntimeMotor F)
      → ActualFrame F
      → List ℕ
      → List (PublicActual F) × ℕ
      → Result DriverError (List (PublicActual F) × ℕ)
  get_motors motors frame [] out = ok out
  get_motors motors frame (i ∷ indexes) (out, stale_count) = elim (get_elem? motors i) [
    | none ↦ err motor_missing
    | some motor ↦
        let index = motor.global_index in
        let actual = frame.actuals index in
        get_motors motors frame indexes (
          set out index (
              if is_ethercat motor.bus
              then copy_public_actual actual
              else to_public_actual actual motor.parameters),
          (if not (frame.valid index) || frame.stale index then stale_count + 1 else stale_count),
        )
  ]

  unfoldable pub get_runtimes :
      MotorRegistry F
      → List (BackendRuntime F)
      → List (PublicActual F) × ℕ
      → Result DriverError (List (PublicActual F) × ℕ)
  get_runtimes registry [] out = ok out
  get_runtimes registry (r ∷ rest) out = elim (get_elem? registry.backends r.backend_index) [
    | none ↦ err backend_missing
    | some group ↦
        get_motors registry.motors r.actual_buffer group.motor_indexes out
        >>= get_runtimes registry rest
  ]

  unfoldable pub get_actuals :
      List (PublicActual F) → Driver F → Result DriverError (ℤ × List (PublicActual F))
  get_actuals actuals d =
      if not (accepts d (length actuals))
      then ok (int_min, actuals)
      else (get_runtimes d.registry d.runtimes (map (λ _. default_public_actual) actuals, 0)
          >>= λ out. ok (neg_ℤ (ℤ.pos out.1), out.0))

module _ {F : Type 0} where
  abbrev pub get_counts :
      List (RuntimeMotor F) → ActualFrame F → List ℕ → List ℤ × ℕ → Result DriverError (List ℤ × ℕ)
  get_counts motors frame [] out = ok out
  get_counts motors frame (i ∷ indexes) (out, stale_count) = elim (get_elem? motors i) [
    | none ↦ err motor_missing
    | some motor ↦
        let index = motor.global_index in
        get_counts motors frame indexes (
          set out index (frame.actuals index).encoder_count,
          (if not (frame.valid index) || frame.stale index then stale_count + 1 else stale_count),
        )
  ]

  abbrev pub get_runtime_counts :
      MotorRegistry F → List (BackendRuntime F) → List ℤ × ℕ → Result DriverError (List ℤ × ℕ)
  get_runtime_counts registry [] out = ok out
  get_runtime_counts registry (r ∷ rest) out = elim (get_elem? registry.backends r.backend_index) [
    | none ↦ err backend_missing
    | some group ↦
        get_counts registry.motors r.actual_buffer group.motor_indexes out
        >>= get_runtime_counts registry rest
  ]

  unfoldable pub get_encoder_counts : List ℤ → Driver F → Result DriverError (ℤ × List ℤ)
  get_encoder_counts counts d =
      if not (accepts d (length counts))
      then ok (int_min, counts)
      else (get_runtime_counts d.registry d.runtimes (map (λ _. ℤ.pos 0) counts, 0) >>= λ out.
          ok (neg_ℤ (ℤ.pos out.1), out.0))

-- The fields of a backend's status in the public struct; `backendStatusStruct` has the same fields.
pub get_backend_statuses :
    {F : Type 0} → (ℕ → BackendStatus) → Driver F → List BackendStatus → ℤ × List BackendStatus
get_backend_statuses status d data_in =
    if d.initialized
    then (ℤ.pos 0, map (λ r. status r.backend_index) d.runtimes)
    else (int_min, data_in)
