-- ===== src/Ethercat/Backend/Cycle/Stale.antt =====
-- What a pass of the loop says of each motor, and of its domains in the status.
use mathlib.Core.List.{Memᴰ}
use heimasdk_snapshot_migrat.Prelude.{
  ℕ, ◌<◌, ◌≡◌, refl, ◌∙◌, subst, inl, inr, true, false, List, [], ◌∷◌, none, Bool-cases, ◌==◌,
  ==_iff,
}
use heimasdk_snapshot_migrat.Motor.{Float}
use heimasdk_snapshot_migrat.Motor.Limits.{error_code_feedback_timeout}
use heimasdk_snapshot_migrat.Config.{Config}
use heimasdk_snapshot_migrat.Ethercat.Frames.{ActualFrame, max_realtime_motors}
use heimasdk_snapshot_migrat.Ethercat.Bindings.{PdoBinding}
use heimasdk_snapshot_migrat.Ethercat.Snapshot.Reading.{
  IsRead, Agrees, Agrees-IsRead, read_snapshot_cases, read_snapshot-IsRead,
}
use heimasdk_snapshot_migrat.Ethercat.Backend.{DomainRuntime, EthercatRuntime}
use heimasdk_snapshot_migrat.Ethercat.Backend.Clock.{Timespec}
use heimasdk_snapshot_migrat.Ethercat.Backend.Cycle.{
  wc_complete, Inputs, process_domains, read_domain, read_domains, begin_frame, cycle,
}

module _ {F : Type 0} ⦃fl : Float F⦄ where
  -- Motor `i` has what a domain with a complete working counter holds for it, or is marked stale.
  pub data IsReported (domains : List (DomainRuntime F)) (i : ℕ) (frame : ActualFrame F)
      : Type 0 where
    complete :
        (d : DomainRuntime F)
        → Memᴰ d domains
        → d.wc_state ≡ wc_complete
        → IsRead d.memory d.size d.bindings i frame
        → IsReported domains i frame
    lost :
        (frame.actuals i).status_word ≡ 0xffff
        → (frame.actuals i).error_code ≡ error_code_feedback_timeout
        → frame.valid i ≡ false
        → frame.stale i ≡ true
        → IsReported domains i frame

  Agrees-IsReported :
      {domains : List (DomainRuntime F)} {i : ℕ} {new old : ActualFrame F}
      → Agrees i new old
      → IsReported domains i old
      → IsReported domains i new
  Agrees-IsReported a (complete d m w r) = complete d m w (Agrees-IsRead a r)
  Agrees-IsReported (a, v, s) (lost w e v' s') = lost (rw a w) (rw a e) (v ∙ v') (s ∙ s')

  none-IsReported :
      {domains : List (DomainRuntime F)} {n : ℕ} {bs : List (PdoBinding F)} {i : ℕ}
      {frame : ActualFrame F}
      → IsRead none n bs i frame
      → IsReported domains i frame
  none-IsReported (IsRead.fresh bytes b d m g h a v s) = cc
  none-IsReported (IsRead.missing w e v s) = lost w e v s

  -- Reading a domain reports its motors and keeps what is said of the others.
  read_domain-IsReported :
      (d : DomainRuntime F) (all : List (DomainRuntime F)) (frame : ActualFrame F) (i : ℕ)
      → Memᴰ d all
      → i < max_realtime_motors
      → IsReported all i frame
      → IsReported all i (read_domain d frame)
  unfolding read_domain
  read_domain-IsReported d all frame i m h r = elim (Bool-cases (d.wc_state == wc_complete)) [
    | inl e ↦ rw e (elim (read_snapshot_cases d.memory d.size d.bindings frame i h) [
      | inl x ↦ complete d m ((==_iff d.wc_state wc_complete).0 e) x
      | inr a ↦ Agrees-IsReported a r
    ])
    | inr e ↦ rw e (elim (read_snapshot_cases none 0 d.bindings frame i h) [
      | inl x ↦ none-IsReported x
      | inr a ↦ Agrees-IsReported a r
    ])
  ]

  bound-IsReported :
      (d : DomainRuntime F) (all : List (DomainRuntime F)) (frame : ActualFrame F)
      (b : PdoBinding F)
      → Memᴰ d all
      → Memᴰ b d.bindings
      → b.global_index < max_realtime_motors
      → IsReported all b.global_index (read_domain d frame)
  unfolding read_domain
  bound-IsReported d all frame b m k h = elim (Bool-cases (d.wc_state == wc_complete)) [
    | inl e ↦ rw e (
        complete d m ((==_iff d.wc_state wc_complete).0 e)
          (read_snapshot-IsRead d.memory d.size d.bindings frame b k h))
    | inr e ↦ rw e (none-IsReported (read_snapshot-IsRead none 0 d.bindings frame b k h))
  ]

  read_domains-keeps :
      (ds all : List (DomainRuntime F)) (frame : ActualFrame F) (i : ℕ)
      → ((d : DomainRuntime F) → Memᴰ d ds → Memᴰ d all)
      → i < max_realtime_motors
      → IsReported all i frame
      → IsReported all i (read_domains ds frame)
  unfolding read_domains
  read_domains-keeps [] all frame i sub h r = r
  read_domains-keeps (d ∷ ds) all frame i sub h r =
      read_domains-keeps ds all (read_domain d frame) i (λ c m. sub c (Memᴰ.tail m)) h
        (read_domain-IsReported d all frame i (sub d (Memᴰ.head refl)) h r)

  read_domains-IsReported :
      (ds all : List (DomainRuntime F)) (frame : ActualFrame F) (d : DomainRuntime F)
      (b : PdoBinding F)
      → ((d : DomainRuntime F) → Memᴰ d ds → Memᴰ d all)
      → Memᴰ d ds
      → Memᴰ b d.bindings
      → b.global_index < max_realtime_motors
      → IsReported all b.global_index (read_domains ds frame)
  unfolding read_domains
  read_domains-IsReported [] all frame d b sub m k h = elim m [ ]
  read_domains-IsReported (x ∷ ds) all frame d b sub (Memᴰ.head e) k h =
      read_domains-keeps ds all (read_domain x frame) b.global_index (λ c m. sub c (Memᴰ.tail m)) h
        (subst (λ y. IsReported all b.global_index (read_domain y frame)) e
          (bound-IsReported d all frame b (sub d (Memᴰ.head e)) k h))
  read_domains-IsReported (x ∷ ds) all frame d b sub (Memᴰ.tail m) k h =
      read_domains-IsReported ds all (read_domain x frame) d b (λ c m. sub c (Memᴰ.tail m)) m k h

  -- After a pass of the loop, a bound motor below 64 is reported with the data that a domain whose
  -- working counter was complete in this very pass holds for it, or as stale, invalid and with the
  -- timeout code; so feedback of an earlier pass is never passed off as new.
  pub cycle-IsReported :
      (config : Config F) (wakeup : Timespec) (inputs : Inputs) (rt : EthercatRuntime F)
      (d : DomainRuntime F) (b : PdoBinding F)
      → Memᴰ d (process_domains inputs.received 0 rt.domains)
      → Memᴰ b d.bindings
      → b.global_index < max_realtime_motors
      → IsReported
          (process_domains inputs.received 0 rt.domains)
          b.global_index
          (cycle config wakeup inputs rt).working_actuals
  unfolding cycle
  cycle-IsReported config wakeup inputs rt d b m k h =
      read_domains-IsReported _ _ (begin_frame config inputs.read_at rt.working_actuals) d b
        (λ c x. x) m k h
