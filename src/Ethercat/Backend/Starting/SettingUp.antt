-- ===== src/Ethercat/Backend/Starting/SettingUp.antt =====
-- A start up to its thread: what it holds then, or with what it fails.
use mathlib.Core.Option.{some-injective}
use heimasdk_snapshot_migrat.Prelude.{
  ℕ, suc, ◌≡◌, refl, subst, inl, inr, Bool, true, false, List, [], ◌∷◌, Option, none, some, Result,
  ok, err, ◌>>=◌, >>=_inverse, ok-injective, Option-cases, get_elem?,
}
use heimasdk_snapshot_migrat.Prelude.Int.{pos, leb_ℤ}
use heimasdk_snapshot_migrat.Registry.{MotorRegistry}
use heimasdk_snapshot_migrat.Config.{Config}
use heimasdk_snapshot_migrat.Ethercat.Bindings.{PdoBinding}
use heimasdk_snapshot_migrat.Ethercat.Backend.{DomainRuntime, EthercatRuntime}
use heimasdk_snapshot_migrat.Ethercat.Backend.States.Order.{Runs, idle, done}
use heimasdk_snapshot_migrat.Ethercat.Backend.Configure.{
  ConfigureError, refused, no_position, still_requesting, configure_pdos,
}
use heimasdk_snapshot_migrat.Ethercat.Backend.Configure.Configured.{
  IsConfigured, configure_pdos-IsConfigured,
}
use heimasdk_snapshot_migrat.Ethercat.Backend.Domains.Holding.{IsGrouped}
use heimasdk_snapshot_migrat.Ethercat.Backend.Domains.Grouped.{group_bindings-IsGrouped}
use heimasdk_snapshot_migrat.Ethercat.Backend.Starting.{
  Surroundings, StartFailure, threw, still_asking, failed, of_option, of_configure, require,
  acquire, acquire_lock, configure_bindings, configure_domains, map_domains, set_up,
}

-- The lists have the same length, and `R` holds of the elements at each place.
pub data Pairs {A : Type 0} (R : A → A → Type 0) : List A → List A → Type 0 where
  none_left : Pairs R [] []
  one_more : {x y : A} {xs ys : List A} → R x y → Pairs R xs ys → Pairs R (x ∷ xs) (y ∷ ys)

module _ {F : Type 0} where
  -- A stage that succeeds has `P`; one that fails has started no thread.
  abbrev pub Keeps : {A : Type 0} → (A → Type 0) → Result (StartFailure F) A → Type 0
  Keeps P (ok a) = P a
  Keeps P (err threw) = Unit
  Keeps P (err still_asking) = Unit
  Keeps P (err (failed rt events)) = (rt.running ≡ false) × Runs idle events idle

  pub Keeps->>= :
      {A B : Type 0} (P : A → Type 0) (Q : B → Type 0) (m : Result (StartFailure F) A)
      (f : A → Result (StartFailure F) B)
      → Keeps P m
      → ((a : A) → P a → Keeps Q (f a))
      → Keeps Q (m >>= f)
  Keeps->>= P Q (ok a) f h k = k a h
  Keeps->>= P Q (err threw) f h k = tt
  Keeps->>= P Q (err still_asking) f h k = tt
  Keeps->>= P Q (err (failed rt events)) f h k = h

  require-Keeps :
      (P : EthercatRuntime F → Type 0) (b : Bool) (rt : EthercatRuntime F)
      → rt.running ≡ false
      → (b ≡ true → P rt)
      → Keeps P (require b rt)
  require-Keeps P true rt h k = k refl
  require-Keeps P false rt h k = (h, done)

  of_option-Keeps :
      {A : Type 0} (P : A → Type 0) (o : Option A) (rt : EthercatRuntime F)
      → rt.running ≡ false
      → ((a : A) → o ≡ some a → P a)
      → Keeps P (of_option rt o)
  of_option-Keeps P none rt h k = (h, done)
  of_option-Keeps P (some a) rt h k = k a refl

  of_configure-Keeps :
      {A : Type 0} (P : A → Type 0) (r : Result ConfigureError A) (rt : EthercatRuntime F)
      → rt.running ≡ false
      → ((a : A) → r ≡ ok a → P a)
      → Keeps P (of_configure rt r)
  of_configure-Keeps P (ok a) rt h k = k a refl
  of_configure-Keeps P (err refused) rt h k = (h, done)
  of_configure-Keeps P (err no_position) rt h k = tt
  of_configure-Keeps P (err still_requesting) rt h k = tt

  -- The lock, the master and the device are held, and no thread runs.
  pub record IsAcquired (rt : EthercatRuntime F) : Type 0 where
    pub not_running : rt.running ≡ false
    pub has_lock : rt.master_lock ≡ true
    pub has_master : rt.master ≡ true
    pub has_device : leb_ℤ (pos 0) rt.master_fd ≡ true

  pub acquire-Keeps :
      (config : Config F) (registry : MotorRegistry F) (s : Surroundings F) (rt : EthercatRuntime F)
      → rt.running ≡ false
      → Keeps IsAcquired (acquire config registry s rt)
  unfolding acquire
  acquire-Keeps config registry s rt h =
      elim (Option-cases (get_elem? registry.backends rt.backend_index)) [
        | inl n ↦ rw (n, acquire) tt
        | inr (backend, b) ↦
            rw (b, acquire)
              (Keeps->>= (λ r. r.running ≡ false) IsAcquired _ _
                (require-Keeps (λ r. r.running ≡ false) (acquire_lock s) _ h (λ _. h))
                (λ r1 h1.
                  Keeps->>= (λ r. (r.running ≡ false) × (r.master_lock ≡ true)) IsAcquired _ _
                    (require-Keeps _ s.master_requested _ h1 (λ _. (h1, refl)))
                    (λ r2 h2.
                      Keeps->>= IsAcquired IsAcquired _ _
                        (require-Keeps IsAcquired (leb_ℤ (pos 0) s.device) _ h2.0 (λ d. record {
                          not_running = h2.0;
                          has_lock = h2.1;
                          has_master = refl;
                          has_device = d;
                        }))
                        (λ r3 h3. record {
                          not_running = h3.not_running;
                          has_lock = h3.has_lock;
                          has_master = h3.has_master;
                          has_device = h3.has_device;
                        }))))
      ]

  -- A domain that was set up: the bindings were, the memory is there, all else is as it was.
  pub record IsSetUp (old new : DomainRuntime F) : Type 0 where
    pub same_id : new.domain_id ≡ old.domain_id
    pub same_division : new.division ≡ old.division
    pub bindings : Pairs IsConfigured old.bindings new.bindings

  pub record IsMapped (old new : DomainRuntime F) : Type 0 where
    pub same_id : new.domain_id ≡ old.domain_id
    pub same_division : new.division ≡ old.division
    pub same_bindings : new.bindings ≡ old.bindings
    pub bytes : List ℕ
    pub mapped : new.memory ≡ some bytes

  configure_bindings-Pairs :
      (s : Surroundings F) (rt : EthercatRuntime F) (domain : ℕ) (selected : Bool)
      (bs : List (PdoBinding F)) {out : Bool × List (PdoBinding F)}
      → configure_bindings s rt domain selected bs ≡ ok out
      → Pairs IsConfigured bs out.1
  unfolding configure_bindings
  configure_bindings-Pairs s rt domain selected [] e =
      subst (λ o. Pairs IsConfigured [] o.1) (ok-injective _ refl e) none_left
  configure_bindings-Pairs s rt domain selected (b ∷ bs) e =
      let (one, p, e1) =
        >>=_inverse
          (configure_pdos s.calls s.fuel s.force_remap rt.master_fd rt.dc_enabled domain selected b)
          _ e in
      let (more, q, e2) = >>=_inverse (configure_bindings s rt domain one.0 bs) _ e1 in
      subst (λ o. Pairs IsConfigured (b ∷ bs) o.1) (ok-injective _ refl e2)
        (one_more (configure_pdos-IsConfigured s.calls s.fuel s.force_remap _ _ domain selected b p)
          (configure_bindings-Pairs s rt domain one.0 bs q))

  configure_domains-Pairs :
      (s : Surroundings F) (rt : EthercatRuntime F) (i : ℕ) (selected : Bool)
      (ds : List (DomainRuntime F)) {out : Bool × List (DomainRuntime F)}
      → configure_domains s rt i selected ds ≡ ok out
      → Pairs IsSetUp ds out.1
  unfolding configure_domains
  configure_domains-Pairs s rt i selected [] e =
      subst (λ o. Pairs IsSetUp [] o.1) (ok-injective _ refl e) none_left
  configure_domains-Pairs s rt i selected (d ∷ ds) e =
      let (one, p, e1) = >>=_inverse (configure_bindings s rt i selected d.bindings) _ e in
      let (more, q, e2) = >>=_inverse (configure_domains s rt (suc i) one.0 ds) _ e1 in
      subst (λ o. Pairs IsSetUp (d ∷ ds) o.1) (ok-injective _ refl e2)
        (one_more
          (record {
            same_id = refl;
            same_division = refl;
            bindings = configure_bindings-Pairs s rt i selected d.bindings p;
          })
          (configure_domains-Pairs s rt (suc i) one.0 ds q))

  map_domains-Pairs :
      (s : Surroundings F) (i : ℕ) (ds : List (DomainRuntime F)) {out : List (DomainRuntime F)}
      → map_domains s i ds ≡ some out
      → Pairs IsMapped ds out
  unfolding map_domains
  map_domains-Pairs s i [] e = subst (Pairs IsMapped []) (some-injective _ _ e) none_left
  map_domains-Pairs s i (d ∷ ds) e = elim (Option-cases (s.domain_data i)) [
    | inl n ↦ cc (rw (n, map_domains) at e)
    | inr (bytes, b) ↦ elim (Option-cases (map_domains s (suc i) ds)) [
      | inl n ↦ cc (rw (b, n, map_domains) at e)
      | inr (more, m) ↦
          subst (Pairs IsMapped (d ∷ ds)) (some-injective _ _ (rw (b, m, map_domains) at e)) (
            one_more
              (record {
                same_id = refl;
                same_division = refl;
                same_bindings = refl;
                bytes = bytes;
                mapped = refl;
              })
              (map_domains-Pairs s (suc i) ds m))
    ]
  ]

  -- The domains: sorted bindings, each set up, in mapped memory.
  pub record AreReady (bindings : List (PdoBinding F)) (domains : List (DomainRuntime F))
      : Type 0 where
    pub grouped : List (DomainRuntime F)
    pub set : List (DomainRuntime F)
    pub sorted : IsGrouped bindings grouped
    pub configured : Pairs IsSetUp grouped set
    pub mapped : Pairs IsMapped set domains

  pub record IsPrepared (bindings : List (PdoBinding F)) (rt : EthercatRuntime F) : Type 0 where
    pub acquired : IsAcquired rt
    pub ready : AreReady bindings rt.domains

  pub set_up-Keeps :
      (config : Config F) (s : Surroundings F) (bindings : List (PdoBinding F))
      (rt : EthercatRuntime F)
      → IsAcquired rt
      → Keeps (IsPrepared bindings) (set_up config s bindings rt)
  unfolding set_up
  set_up-Keeps config s bindings rt h =
      Keeps->>= (IsGrouped bindings) (IsPrepared bindings) _ _
        (of_option-Keeps (IsGrouped bindings) _ rt h.not_running
          (λ ds e. group_bindings-IsGrouped config s.create_domain bindings e))
        (λ ds g.
          Keeps->>= (λ o. Pairs IsSetUp ds o.1) (IsPrepared bindings) _ _
            (of_configure-Keeps (λ o. Pairs IsSetUp ds o.1) _ rt h.not_running
              (λ o e. configure_domains-Pairs s rt 0 rt.dc_reference_selected ds e))
            (λ o c.
              Keeps->>= IsAcquired (IsPrepared bindings) _ _
                (require-Keeps IsAcquired s.activated _ h.not_running (λ _. record {
                  not_running = h.not_running;
                  has_lock = h.has_lock;
                  has_master = h.has_master;
                  has_device = h.has_device;
                }))
                (λ r a.
                  Keeps->>= (Pairs IsMapped o.1) (IsPrepared bindings) _ _
                    (of_option-Keeps (Pairs IsMapped o.1) _ r a.not_running
                      (λ ms e. map_domains-Pairs s 0 o.1 e))
                    (λ ms m. record {
                      acquired = record {
                        not_running = a.not_running;
                        has_lock = a.has_lock;
                        has_master = a.has_master;
                        has_device = a.has_device;
                      };
                      ready = record {
                        grouped = ds;
                        set = o.1;
                        sorted = g;
                        configured = c;
                        mapped = m;
                      };
                    }))))
