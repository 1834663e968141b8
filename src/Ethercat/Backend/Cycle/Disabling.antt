-- ===== src/Ethercat/Backend/Cycle/Disabling.antt =====
-- What a pass of the loop sends to the drives when the command is too old.
use mathlib.Core.Option.{some-injective}
use heimasdk_snapshot_migrat.Prelude.{
  ℕ, zero, suc, ◌<◌, ◌≡◌, refl, ap, true, List, [], ◌∷◌, ◌++◌, some, length, get_elem?,
}
use heimasdk_snapshot_migrat.Prelude.Int.{pos_part}
use heimasdk_snapshot_migrat.Motor.{Float}
use heimasdk_snapshot_migrat.SnapshotBuffer.{read_into}
use heimasdk_snapshot_migrat.Config.{Config}
use heimasdk_snapshot_migrat.Ethercat.Frames.{ActualFrame, PackedFrame}
use heimasdk_snapshot_migrat.Ethercat.Bindings.{PdoBinding}
use heimasdk_snapshot_migrat.Ethercat.Watchdog.{apply_watchdog, IsExpired, apply_watchdog-disables}
use heimasdk_snapshot_migrat.Ethercat.Snapshot.{
  is_written, write_packed_bindings, write_packed_snapshot,
}
use heimasdk_snapshot_migrat.Ethercat.Snapshot.Writing.{AllMiss}
use heimasdk_snapshot_migrat.Ethercat.Snapshot.Commands.{
  HasDisabled, write_packed_bindings-disables,
}
use heimasdk_snapshot_migrat.Ethercat.Backend.{DomainRuntime, EthercatRuntime}
use heimasdk_snapshot_migrat.Ethercat.Backend.Clock.{Timespec}
use heimasdk_snapshot_migrat.Ethercat.Backend.Cycle.{
  Inputs, process_domains, write_domain, write_domains, cycle,
}

module _ {F : Type 0} ⦃fl : Float F⦄ where
  write_domains-get :
      (targets : PackedFrame) (actuals : ActualFrame F) (ds : List (DomainRuntime F)) (k : ℕ)
      {d : DomainRuntime F}
      → get_elem? ds k ≡ some d
      → get_elem? (write_domains targets actuals ds) k ≡ some (write_domain targets actuals d)
  unfolding write_domains
  write_domains-get targets actuals [] k e = cc
  write_domains-get targets actuals (x ∷ ds) zero e =
      ap some (ap (write_domain targets actuals) (some-injective _ _ e))
  write_domains-get targets actuals (x ∷ ds) (suc k) e = write_domains-get targets actuals ds k e

  -- When the newest command has expired at the pass's test, the pass writes the control word 0x0006,
  -- which enables nothing, for every drive of a domain whose output data lies inside the memory and
  -- whose control word no later drive of the domain overlaps, whatever the command says.
  pub cycle-disables :
      (config : Config F) (wakeup : Timespec) (inputs : Inputs) (rt : EthercatRuntime F)
      → IsExpired
          (read_into inputs.fails rt.target_buffer).0
          inputs.checked_at
          inputs.command_timeout
      → (k : ℕ) (d : DomainRuntime F) (bytes : List ℕ)
      → get_elem? (process_domains inputs.received 0 rt.domains) k ≡ some d
      → d.memory ≡ some bytes
      → (before after : List (PdoBinding F)) (b : PdoBinding F) → d.bindings ≡ before ++ b ∷ after
      → is_written d.size b ≡ true
      → suc (pos_part b.rx_offset) < length bytes
      → AllMiss (pos_part b.rx_offset) after
      → AllMiss (suc (pos_part b.rx_offset)) after
      → (new : DomainRuntime F) × (out : List ℕ) × (get_elem?
            (cycle config wakeup inputs rt).domains
            k
          ≡ some new)
        × (new.memory ≡ some out)
        × HasDisabled (pos_part b.rx_offset) out
  unfolding cycle write_domain write_packed_snapshot
  cycle-disables config wakeup inputs rt old k d bytes at_k m before after b e w l a0 a1 =
      let watched =
        apply_watchdog (read_into inputs.fails rt.target_buffer).0 inputs.checked_at
          inputs.command_timeout in
      let actuals = (cycle config wakeup inputs rt).working_actuals in
      (
        write_domain watched.1 actuals d,
        write_packed_bindings d.size watched.1 actuals d.bindings bytes,
        write_domains-get watched.1 actuals (process_domains inputs.received 0 rt.domains) k at_k,
        rw m refl,
        rw e (
            write_packed_bindings-disables d.size watched.1 actuals before after b bytes
              (apply_watchdog-disables _ _ _ old) w l a0 a1),
      )
