-- ===== src/Detector/Composite.antt =====
-- pkg/deploy/spindeploy/changedetector/changedetector.go. A detector may write to the service that it
-- looks at, so the service is passed from one to the next.
use spinnaker_operator.Base.{
  String, Bool, true, false, ◌≡◌, refl, ◌≢◌, ◌↔◌, ◌⊎◌, inl, inr, List, [], ◌∷◌, ◌++◌, arith, ap,
  not, ◌&&◌, if◌then◌else◌,
}

module _ (S E : Type 0) where
  pub record ChangeDetector : Type 0 where
    pub name : String
    pub always_run : Bool
    pub is_spinnaker_up_to_date : S → S × (E ⊎ Bool)

  -- The service, the answer, and the detectors for which an event was recorded.
  abbrev pub Checked : Type 0
  Checked = S × (E ⊎ Bool) × List String

module _ {S E : Type 0} where
  -- The loop, with `isUpToDate` and the events so far.
  unfoldable pub check_all : List (ChangeDetector S E) → Bool → S → List String → Checked S E
  check_all [] up svc events = (svc, inr up, events)
  check_all (d ∷ ds) up svc events = elim (not up && not d.always_run) [
    | true ↦ check_all ds up svc events
    | false ↦
        (let (svc', upd) = d.is_spinnaker_up_to_date svc in
          elim upd [
            | inl e ↦ (svc', inl e, events)
            | inr true ↦ check_all ds up svc' events
            | inr false ↦ check_all ds false svc' (events ++ d.name ∷ [])
          ])
  ]

  unfoldable pub composite : List (ChangeDetector S E) → S → Checked S E
  unfolding check_all
  composite ds svc = check_all ds true svc []

  -- Every detector, run on the service as those before it left it, finds it up to date.
  abbrev pub AllUpToDate : List (ChangeDetector S E) → S → Type 0
  AllUpToDate [] svc = Unit
  AllUpToDate (d ∷ ds) svc =
      ((d.is_spinnaker_up_to_date svc).1 ≡ inr true)
      × AllUpToDate ds (d.is_spinnaker_up_to_date svc).0

  abbrev pub after_all : List (ChangeDetector S E) → S → S
  after_all [] svc = svc
  after_all (d ∷ ds) svc = after_all ds (d.is_spinnaker_up_to_date svc).0

  -- The detectors that run whatever the others found.
  abbrev pub always : List (ChangeDetector S E) → List (ChangeDetector S E)
  always [] = []
  always (d ∷ ds) = if d.always_run then d ∷ always ds else always ds

  -- Once a change is known the answer stays no, or is an error.
  check_all-false :
      (ds : List (ChangeDetector S E)) (svc : S) (events : List String)
      → (check_all ds false svc events).1 ≢ inr true
  unfolding check_all
  check_all-false [] svc events h = ground arith
  check_all-false (d ∷ ds) svc events h =
      let svc' = (d.is_spinnaker_up_to_date svc).0 in
      ground (
        arith,
        check_all-false ds svc events,
        check_all-false ds svc' events,
        check_all-false ds svc' (events ++ d.name ∷ []),
      )

  all_of_true :
      (ds : List (ChangeDetector S E)) (svc : S) (events : List String)
      → (check_all ds true svc events).1 ≡ inr true
      → AllUpToDate ds svc
  unfolding check_all
  all_of_true [] svc events h = tt
  all_of_true (d ∷ ds) svc events h =
      let svc' = (d.is_spinnaker_up_to_date svc).0 in
      ground (arith, all_of_true ds svc' events, check_all-false ds svc' (events ++ d.name ∷ []))

  true_of_all :
      (ds : List (ChangeDetector S E)) (svc : S) (events : List String)
      → AllUpToDate ds svc
      → check_all ds true svc events ≡ (after_all ds svc, inr true, events)
  unfolding check_all
  true_of_all [] svc events h = refl
  true_of_all (d ∷ ds) svc events (h, hs) =
      ground (arith, true_of_all ds (d.is_spinnaker_up_to_date svc).0 events hs)

  -- Spinnaker is found up to date exactly when every detector, run in turn, says so; and exactly
  -- then all the detectors have run, and no event was recorded.
  pub composite-true :
      (ds : List (ChangeDetector S E)) (svc : S)
      → (((composite ds svc).1 ≡ inr true) ↔ AllUpToDate ds svc)
        × ((composite ds svc ≡ (after_all ds svc, inr true, [])) ↔ AllUpToDate ds svc)
  unfolding composite
  composite-true ds svc =
      let answer : Checked S E → E ⊎ Bool = λ c. c.1 in
      (
        (all_of_true ds svc [], λ h. ap answer (true_of_all ds svc [] h)),
        (λ h. all_of_true ds svc [] (ap answer h), true_of_all ds svc []),
      )

  -- Once a detector has found a change, the detectors after it that do not always run are skipped:
  -- the run goes on as if they were not there.
  check_all-always :
      (ds : List (ChangeDetector S E)) (svc : S) (events : List String)
      → check_all ds false svc events ≡ check_all (always ds) false svc events
  unfolding check_all
  check_all-always [] svc events = refl
  check_all-always (d ∷ ds) svc events =
      let svc' = (d.is_spinnaker_up_to_date svc).0 in
      ground (
        arith,
        check_all-always ds svc events,
        check_all-always ds svc' events,
        check_all-always ds svc' (events ++ d.name ∷ []),
      )

  -- When the first detector finds a change, the rest runs as the always-running detectors alone
  -- would, with one event for the change, and the answer is not "up to date".
  pub composite_changed :
      (d : ChangeDetector S E) (ds : List (ChangeDetector S E)) (svc svc' : S)
      → d.is_spinnaker_up_to_date svc ≡ (svc', inr false)
      → (composite (d ∷ ds) svc ≡ check_all (always ds) false svc' (d.name ∷ []))
        × ((composite (d ∷ ds) svc).1 ≢ inr true)
  unfolding composite
  composite_changed d ds svc svc' h = (
    ground (arith, check_all-always ds svc' (d.name ∷ [])),
    λ e. ground (arith, check_all-false ds svc' (d.name ∷ [])),
  )
