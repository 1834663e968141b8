-- ===== src/Ethercat/Snapshot/Packing.antt =====
-- Targets packed by the thread that sets them, against targets packed by the realtime thread.
use heimasdk_snapshot_migrat.Prelude.{
  ℕ, ◌≡◌, refl, ap, true, List, [], ◌∷◌, Option, none, some, drop, replicate,
}
use heimasdk_snapshot_migrat.Motor.{Float, MotorTarget}
use heimasdk_snapshot_migrat.Ethercat.MtDevice.{RxProfile}
use heimasdk_snapshot_migrat.Ethercat.Frames.{TargetFrame, ActualFrame, PackedFrame}
use heimasdk_snapshot_migrat.Ethercat.Pdo.{
  pack_for_realtime, pack_standard_rx, pack_pvt_rx, control_word,
}
use heimasdk_snapshot_migrat.Ethercat.Pdo.Roundtrip.{standard_bytes_back, pvt_bytes_back}
use heimasdk_snapshot_migrat.Ethercat.Bindings.{PdoBinding}
use heimasdk_snapshot_migrat.Ethercat.Snapshot.{
  status_word_of, target_bytes, packed_bytes, write_binding, write_bindings, write_snapshot,
  write_packed_binding, write_packed_bindings, write_packed_snapshot,
}

module _ {F : Type 0} ⦃fl : Float F⦄ where
  -- The packed frame has the bound motor's target, packed with the binding's profile.
  abbrev pub IsPacked : TargetFrame F → PackedFrame → PdoBinding F → Type 0
  IsPacked targets packed b =
      (targets.valid b.global_index ≡ true)
      × (packed.valid b.global_index ≡ true)
      × (packed.targets b.global_index
          ≡ pack_for_realtime (targets.targets b.global_index) b.parameters b.rx_profile)

  abbrev pub AllPacked : TargetFrame F → PackedFrame → List (PdoBinding F) → Type 0
  AllPacked targets packed [] = Unit
  AllPacked targets packed (b ∷ bs) = IsPacked targets packed b × AllPacked targets packed bs

  packed_bytes-pack :
      (b : PdoBinding F) (target : MotorTarget F) (word : ℕ)
      → packed_bytes b (pack_for_realtime target b.parameters b.rx_profile) word
        ≡ target_bytes b target word
  unfolding target_bytes packed_bytes pack_for_realtime
  packed_bytes-pack b target word = choose b.rx_profile refl
    where
      choose :
          (p : RxProfile)
          → b.rx_profile ≡ p
          → packed_bytes b (pack_for_realtime target b.parameters b.rx_profile) word
            ≡ target_bytes b target word
      choose RxProfile.standard e = rw e (
          standard_bytes_back (pack_standard_rx target b.parameters)
            (control_word target.enabled word) (drop 16 (replicate 22 0)))
      choose RxProfile.pvt e =
          rw e
            (pvt_bytes_back (pack_pvt_rx target b.parameters) (control_word target.enabled word) [])

  write_packed_binding-pack :
      (n : ℕ) (targets : TargetFrame F) (packed : PackedFrame) (actuals : ActualFrame F)
      (b : PdoBinding F) (domain : List ℕ)
      → IsPacked targets packed b
      → write_packed_binding n packed actuals b domain ≡ write_binding n targets actuals b domain
  unfolding write_packed_binding write_binding
  write_packed_binding-pack n targets packed actuals b domain h =
      rw
        (
          h.0,
          h.1,
          h.2,
          packed_bytes-pack b (targets.targets b.global_index)
              (status_word_of actuals b.global_index),
        )
        refl

  write_packed_bindings-pack :
      (n : ℕ) (targets : TargetFrame F) (packed : PackedFrame) (actuals : ActualFrame F)
      (bindings : List (PdoBinding F)) (domain : List ℕ)
      → AllPacked targets packed bindings
      → write_packed_bindings n packed actuals bindings domain
        ≡ write_bindings n targets actuals bindings domain
  unfolding write_packed_bindings write_bindings
  write_packed_bindings-pack n targets packed actuals [] domain h = refl
  write_packed_bindings-pack n targets packed actuals (b ∷ bs) domain h =
      rw (write_packed_binding-pack n targets packed actuals b domain h.0)
        (write_packed_bindings-pack n targets packed actuals bs _ h.1)

  -- When every bound motor has a valid target, packed in advance with its binding's profile and
  -- parameters, the two overloads of the write leave the same bytes in the domain.
  pub write_packed_snapshot-pack :
      (domain : Option (List ℕ)) (n : ℕ) (bindings : List (PdoBinding F)) (targets : TargetFrame F)
      (packed : PackedFrame) (actuals : ActualFrame F)
      → AllPacked targets packed bindings
      → write_packed_snapshot domain n bindings packed actuals
        ≡ write_snapshot domain n bindings targets actuals
  unfolding write_packed_snapshot write_snapshot
  write_packed_snapshot-pack none n bindings targets packed actuals h = refl
  write_packed_snapshot-pack (some domain) n bindings targets packed actuals h =
      ap some (write_packed_bindings-pack n targets packed actuals bindings domain h)
