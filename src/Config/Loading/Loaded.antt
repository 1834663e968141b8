-- ===== src/Config/Loading/Loaded.antt =====
-- What `loadConfig` promises of the configuration that it returns.
use heimasdk_snapshot_migrat.Prelude.{
  ℕ, ◌≡◌, refl, sym, ◌∙◌, List, [], Option, none, some, Result, ok, >>=_inverse, ok-injective,
  arith, inl, inr, Option-cases, codes, subst, ap,
}
use heimasdk_snapshot_migrat.Prelude.Int.{ℤ, pos}
use heimasdk_snapshot_migrat.Motor.{MotorParameters, MotorConfig}
use heimasdk_snapshot_migrat.Config.{
  Config, Xml, ConfigError, default_config, child, required_child,
}
use heimasdk_snapshot_migrat.Config.Motors.{
  read_parameter_map, can_slave, ethercat_slave, explicit_motor, place_motors,
}
use heimasdk_snapshot_migrat.Config.Motors.Distinct.{AllKeyed, place_motors-All}
use heimasdk_snapshot_migrat.Config.Motors.Placed.{
  IsPlaced, can_slave-IsPlaced, ethercat_slave-IsPlaced, explicit_motor-IsPlaced,
  read_parameter_map-AllKeyed,
}
use heimasdk_snapshot_migrat.Config.Masters.{read_can_masters}
use heimasdk_snapshot_migrat.Config.Masters.Divisions.{read_domains-All}
use heimasdk_snapshot_migrat.Config.Masters.Settings.{
  IsLoaded, read_can_masters-IsLoaded, read_ethercat_masters-IsLoaded, read_imu_config-IsLoaded,
}
use heimasdk_snapshot_migrat.Config.Loading.{
  load_root, read_can, read_ethercat_config, read_explicit_placements, load_config,
}

module _ {E F : Type 0} (xml : Xml E F) where
  -- A step that places motors and leaves the rest of `c`.
  place_motors-IsLoaded :
      {total : ℤ} {parameters : List (ℤ × MotorParameters F)} {c : Config F}
      (place : E → Result ConfigError (Option (MotorConfig F))) (es : List E)
      {out : List (MotorConfig F)}
      → ((e : E) (m : MotorConfig F) → place e ≡ ok (some m) → IsPlaced total parameters m)
      → IsLoaded total parameters c
      → place_motors place es c.motors ≡ ok out
      → IsLoaded total parameters (record c { motors = out })
  place_motors-IsLoaded place es f h e =
      let (p, d) = place_motors-All (IsPlaced _ _) place es _ f (h.placed, h.distinct) e in
      record {
        counted = h.counted;
        placed = p;
        distinct = d;
        domains = h.domains;
        masters = h.masters;
      }

  read_can-IsLoaded :
      {total : ℤ} (parameters : List (ℤ × MotorParameters F)) (e : Option E) (c : Config F)
      {out : Config F}
      → AllKeyed total parameters
      → IsLoaded total parameters c
      → read_can xml parameters e c ≡ ok out
      → IsLoaded total parameters out
  unfolding read_can
  read_can-IsLoaded parameters none c a h r =
      subst (IsLoaded _ parameters) (ok-injective (ok c) refl r) h
  read_can-IsLoaded parameters (some e) c a h r =
      let (motors, p, q) = >>=_inverse (place_motors _ _ _) _ r in
      subst (IsLoaded _ parameters) (ok-injective _ refl q) (
        place_motors-IsLoaded {c = read_can_masters xml (child xml e (codes "Masters")) c}
          (can_slave xml parameters) _ (λ e m. can_slave-IsPlaced xml _ parameters e m a)
          (read_can_masters-IsLoaded xml (child xml e (codes "Masters")) c h) p)

  read_ethercat_config-IsLoaded :
      {total : ℤ} (parameters : List (ℤ × MotorParameters F)) (e : Option E) (c : Config F)
      {out : Config F}
      → AllKeyed total parameters
      → IsLoaded total parameters c
      → read_ethercat_config xml parameters e c ≡ ok out
      → IsLoaded total parameters out
  unfolding read_ethercat_config
  read_ethercat_config-IsLoaded parameters none c a h r =
      subst (IsLoaded _ parameters) (ok-injective (ok c) refl r) h
  read_ethercat_config-IsLoaded parameters (some e) c a h r =
      let (motors, p, q) = >>=_inverse (place_motors _ _ _) _ r in
      let kept =
        place_motors-IsLoaded (ethercat_slave xml parameters) _
          (λ e m. ethercat_slave-IsPlaced xml _ parameters e m a)
          (read_ethercat_masters-IsLoaded xml _ c h) p in
      subst (IsLoaded _ parameters) (ok-injective _ refl q) (record {
        counted = kept.counted;
        placed = kept.placed;
        distinct = kept.distinct;
        domains = read_domains-All xml _ _ kept.domains;
        masters = kept.masters;
      })

  read_explicit_placements-IsLoaded :
      {total : ℤ} (parameters : List (ℤ × MotorParameters F)) (e : Option E) (c : Config F)
      {out : Config F}
      → AllKeyed total parameters
      → IsLoaded total parameters c
      → read_explicit_placements xml parameters e c ≡ ok out
      → IsLoaded total parameters out
  unfolding read_explicit_placements
  read_explicit_placements-IsLoaded parameters e c a h r =
      let (motors, p, q) = >>=_inverse (place_motors _ _ _) _ r in
      subst (IsLoaded _ parameters) (ok-injective _ refl q) (
        place_motors-IsLoaded (explicit_motor xml parameters) _
          (λ e m. explicit_motor-IsPlaced xml _ parameters e m a) h p)

  required_child_lem :
      (parent : E) (name : List ℕ) {e : E}
      → required_child xml parent name ≡ ok e
      → child xml parent name ≡ some e
  unfolding required_child
  required_child_lem parent name h = ground arith

  -- The element that the parameters come from, and what is then true of the configuration.
  pub record IsLoadedFrom (root : E) (c : Config F) : Type 0 where
    pub motors : E
    pub parameters : List (ℤ × MotorParameters F)
    pub found : child xml root (codes "Motors") ≡ some motors
    pub read :
        read_parameter_map xml (xml.children motors (codes "Motor")) [] (pos 0)
        ≡ ok (parameters, c.total_motor_count)
    pub loaded : IsLoaded c.total_motor_count parameters c

  loaded_from :
      (root motors : E) (total : ℤ) (parameters : List (ℤ × MotorParameters F)) (c : Config F)
      → child xml root (codes "Motors") ≡ some motors
      → read_parameter_map xml (xml.children motors (codes "Motor")) [] (pos 0)
        ≡ ok (parameters, total)
      → IsLoaded total parameters c
      → IsLoadedFrom root c
  loaded_from root motors total parameters c found r h = record {
    motors = motors;
    parameters = parameters;
    found = found;
    read = r ∙ ap (λ t. ok (parameters, t)) (sym h.counted);
    loaded = subst (λ t. IsLoaded t parameters c) (sym h.counted) h;
  }

  load_root-IsLoadedFrom :
      (root : E) {c : Config F} → load_root xml root ≡ ok c → IsLoadedFrom root c
  unfolding load_root
  load_root-IsLoadedFrom root e =
      let (motors, found, e1) = >>=_inverse (required_child xml root (codes "Motors")) _ e in
      let (read, r, e2) = >>=_inverse (read_parameter_map xml _ [] (pos 0)) _ e1 in
      let (c1, r1, e3) = >>=_inverse (read_can xml read.0 _ _) _ e2 in
      let (c2, r2, e4) = >>=_inverse (read_ethercat_config xml read.0 _ c1) _ e3 in
      let (c3, r3, e5) = >>=_inverse (read_explicit_placements xml read.0 _ c2) _ e4 in
      let start : IsLoaded read.1 read.0 (record default_config { total_motor_count = read.1 }) =
        record { counted = refl; placed = tt; distinct = tt; domains = tt; masters = tt } in
      let keyed = read_parameter_map-AllKeyed xml _ [] (pos 0) tt r in
      let h1 = read_can-IsLoaded read.0 _ _ keyed start r1 in
      let h2 = read_ethercat_config-IsLoaded read.0 _ c1 keyed h1 r2 in
      let h3 = read_explicit_placements-IsLoaded read.0 _ c2 keyed h2 r3 in
      let h =
        subst (IsLoaded read.1 read.0) (ok-injective _ refl e5)
          (read_imu_config-IsLoaded xml (child xml root (codes "IMU")) c3 h3) in
      loaded_from root motors read.1 read.0 _ (required_child_lem root (codes "Motors") found) r h

  -- A configuration that `loadConfig` returns: its motors have different aliases from 1 to the total
  -- that the element `Motors` gives, each has the parameters read there for its alias, a CAN motor has
  -- a positive identifier, and the divisions of masters and domains are at least 1.
  pub load_config-IsLoaded :
      (document : Option E) {c : Config F}
      → load_config xml document ≡ ok c
      → (root : E) × IsLoadedFrom root c
  unfolding load_config
  load_config-IsLoaded none e = cc
  load_config-IsLoaded (some document) e =
      elim (Option-cases (child xml document (codes "Config"))) [
        | inl h ↦ cc (rw (h, load_config) at e)
        | inr (root, h) ↦ (root, load_root-IsLoadedFrom root (rw (h, load_config) at e))
      ]
