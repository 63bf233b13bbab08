-- ===== src/Operations/Server/Laws.antt =====
-- When a server is healthy.
use cloudfall.Base.{
  ℕ, ◌-◌, ◌≤◌, ◌<◌, String, Bool, true, false, Option, none, some, List, [], ◌∷◌, ◌++◌, map, leb,
  nat_eq, string_eq, ◌≡◌, ◌≢◌, ◌↔◌, refl, sym, ap, ◌∙◌, inl, inr, Bool-cases, Option-cases, arith,
}
use cloudfall.Base.Bytes.{All}
use cloudfall.Base.Json.{Json, Fields, fields_list}
use cloudfall.Base.Results.{ok, err, ◌>>=◌, >>=-eq-ok}
use cloudfall.Base.Sorting.{sorted, insert_below}
use cloudfall.Audit.Checks.{AuditStatus, compliant, drift, unknown, AuditCheck, ServerAudit}
use cloudfall.Audit.Checks.Laws.{Passing}
use cloudfall.Audit.Report.{ObservedServerSnapshot}
use cloudfall.Operations.Records.{
  healthy, TaskSeverity, MonitoredFilesystem, SmartDeviceEvidence, OperationsTask, ServerOperations,
}
use cloudfall.Operations.Values.{Views, mapping, service_name}
use cloudfall.Operations.Capacity.{usage_severity}
use cloudfall.Operations.Tasks.{
  audit_tasks, observation_tasks, filesystem_tasks, failed_service, service_tasks,
  failed_service_tasks, needs_review, device_tasks, smart_tasks, task_leb, sort_tasks,
}
use cloudfall.Operations.Server.{
  health, task_health, Evidence, read_evidence, monitoring_tasks, server_operations,
}

insert_below-filled :
    (t : OperationsTask) (ts : List OperationsTask) → insert_below task_leb t ts ≢ []
unfolding insert_below
insert_below-filled t [] h = cc
insert_below-filled t (u ∷ ts) h = ground arith

-- A list is sorted to nothing only if it is nothing.
sort_tasks-nil_iff : (tasks : List OperationsTask) → (sort_tasks tasks ≡ []) ↔ (tasks ≡ [])
unfolding sort_tasks sorted
sort_tasks-nil_iff [] = (λ h. refl, λ h. refl)
sort_tasks-nil_iff (t ∷ tasks) =
    (λ h. absurd (insert_below-filled t (sorted task_leb tasks) h), λ h. cc)

health_lowered : (s : TaskSeverity) (rest : List TaskSeverity) → health (s ∷ rest) ≢ healthy
unfolding health
health_lowered TaskSeverity.critical rest h = cc
health_lowered TaskSeverity.warning rest h = ground arith
health_lowered TaskSeverity.unknown rest h = ground arith

-- A server is healthy exactly if it has no task: each severity lowers its health.
task_health_iff : (tasks : List OperationsTask) → (task_health tasks ≡ healthy) ↔ (tasks ≡ [])
unfolding health
task_health_iff [] = (λ _. refl, λ _. refl)
task_health_iff (t ∷ tasks) =
    (λ h. absurd (health_lowered t.severity (map (λ u. u.severity) tasks) h), λ h. cc)

append-nil_iff {ℓ} : {A : Type ℓ} (xs ys : List A) → (xs ++ ys ≡ []) ↔ ((xs ≡ []) × (ys ≡ []))
append-nil_iff [] ys = (λ h. (refl, h), λ (_, h). h)
append-nil_iff (x ∷ xs) ys = (λ h. cc, λ (h, _). cc)

-- What is made behind a call is not empty, so it is no empty list.
made_filled :
    {A B : Type 0} (call : Views A) (later : Views (List B)) (f : A → B)
    → (call >>= λ a. later >>= λ rest. ok (f a ∷ rest)) ≢ ok []
made_filled (err e) later f h = cc
made_filled (ok a) (err e) f h = cc
made_filled (ok a) (ok rest) f h = cc

module _ (hexdigest : String → String) where
  audit_tasks-nil_iff :
      (server_id : String) (checks : List AuditCheck)
      → (audit_tasks hexdigest server_id checks ≡ ok []) ↔ All Passing checks
  unfolding audit_tasks
  audit_tasks-nil_iff server_id [] = (λ _. tt, λ _. refl)
  audit_tasks-nil_iff server_id (check ∷ checks) =
      split check.status refl (audit_tasks-nil_iff server_id checks)
    where
      split :
          (status : AuditStatus)
          → check.status ≡ status
          → (audit_tasks hexdigest server_id checks ≡ ok []) ↔ All Passing checks
          → (audit_tasks hexdigest server_id (check ∷ checks) ≡ ok [])
            ↔ All Passing (check ∷ checks)
      split compliant e ih = rw (audit_tasks, e) (λ h. (refl, ih.0 h), λ (_, t). ih.1 t)
      split drift e ih =
          rw (audit_tasks, e)
            (
              λ h. absurd (made_filled _ (audit_tasks hexdigest server_id checks) (λ t. t) h),
              λ (c, _). cc,
            )
      split unknown e ih =
          rw (audit_tasks, e)
            (
              λ h. absurd (made_filled _ (audit_tasks hexdigest server_id checks) (λ t. t) h),
              λ (c, _). cc,
            )

  observation_tasks-nil_iff :
      (server_id : String) (observed_at generated_at : ℕ)
      → (observation_tasks hexdigest server_id observed_at generated_at ≡ ok [])
        ↔ (generated_at - observed_at ≤ 86400000000)
  unfolding observation_tasks
  observation_tasks-nil_iff server_id observed_at generated_at =
      elim (Bool-cases (leb (generated_at - observed_at) 86400000000)) [
        | inl fresh ↦ rw (observation_tasks, fresh) (λ _. ground arith, λ _. refl)
        | inr stale ↦
            rw (observation_tasks, stale) (λ h. absurd (one_made _ h), λ h. absurd (ground arith))
      ]
    where
      one_made : (call : Views OperationsTask) → (call >>= λ t. ok (t ∷ [])) ≡ ok [] → ⊥
      one_made (ok t) h = cc
      one_made (err e) h = cc

  filesystem_tasks-nil_iff :
      (server_id : String) (found : List MonitoredFilesystem)
      → (filesystem_tasks hexdigest server_id found ≡ ok []) ↔ All (λ f. f.utilization < 8500) found
  unfolding filesystem_tasks usage_severity
  filesystem_tasks-nil_iff server_id [] = (λ _. tt, λ _. refl)
  filesystem_tasks-nil_iff server_id (f ∷ found) =
      let ih = filesystem_tasks-nil_iff server_id found in
      elim (Option-cases (usage_severity f)) [
        | inl low ↦ rw (filesystem_tasks, low) (λ h. (roomy low, ih.0 h), λ (_, t). ih.1 t)
        | inr (severity, high) ↦
            rw (filesystem_tasks, high)
              (
                λ h. absurd (made_filled _ (filesystem_tasks hexdigest server_id found) (λ t. t) h),
                λ (l, _). absurd (crowded severity high l),
              )
      ]
    where
      roomy : usage_severity f ≡ none → f.utilization < 8500
      roomy low = ground arith

      crowded :
          (severity : TaskSeverity) → usage_severity f ≡ some severity → f.utilization < 8500 → ⊥
      crowded severity high l = ground arith

  -- No service of the evidence has failed.
  abbrev pub NoneFailed : List (String × Json) → Type 0
  NoneFailed [] = Unit
  NoneFailed ((name, value) ∷ rest) = (failed_service hexdigest value ≡ none) × NoneFailed rest

  service_tasks-nil_iff :
      (server_id : String) (services : List (String × Json))
      → (service_tasks hexdigest server_id services ≡ ok []) ↔ NoneFailed services
  unfolding service_tasks
  service_tasks-nil_iff server_id [] = (λ _. tt, λ _. refl)
  service_tasks-nil_iff server_id ((name, value) ∷ rest) =
      let ih = service_tasks-nil_iff server_id rest in
      elim (Option-cases (failed_service hexdigest value)) [
        | inl fine ↦ rw (service_tasks, fine) (λ h. (refl, ih.0 h), λ (_, t). ih.1 t)
        | inr (content, broken) ↦
            rw (service_tasks, broken)
              (
                λ h.
                    absurd
                      (some_made (service_name name) _ (service_tasks hexdigest server_id rest) h),
                λ (n, _). cc,
              )
      ]
    where
      some_made :
          (named : Views String) (make : String → Views OperationsTask)
          (later : Views (List OperationsTask))
          → (named >>= λ unit. make unit >>= λ t. later >>= λ ts. ok (t ∷ ts)) ≡ ok []
          → ⊥
      some_made (err e) make later h = cc
      some_made (ok unit) make later h = made_filled (make unit) later (λ t. t) h

  device_tasks-nil_iff :
      (server_id : String) (devices : List SmartDeviceEvidence)
      → (device_tasks hexdigest server_id devices ≡ ok [])
        ↔ All (λ d. needs_review hexdigest d ≡ false) devices
  unfolding device_tasks
  device_tasks-nil_iff server_id [] = (λ _. tt, λ _. refl)
  device_tasks-nil_iff server_id (d ∷ devices) =
      let ih = device_tasks-nil_iff server_id devices in
      elim (Bool-cases (needs_review hexdigest d)) [
        | inl worn ↦
            rw (device_tasks, worn)
              (
                λ h. absurd (made_filled _ (device_tasks hexdigest server_id devices) (λ t. t) h),
                λ (c, _). cc,
              )
        | inr fine ↦ rw (device_tasks, fine) (λ h. (refl, ih.0 h), λ (_, t). ih.1 t)
      ]

  -- SMART is read and no device needs a review, or it is neither read nor expected.
  abbrev pub DisksFine : Bool → Bool → List SmartDeviceEvidence → Type 0
  DisksFine true expected devices = All (λ d. needs_review hexdigest d ≡ false) devices
  DisksFine false expected devices = expected ≡ false

  smart_tasks-nil_iff :
      (server_id : String) (available expected : Bool) (devices : List SmartDeviceEvidence)
      → (smart_tasks hexdigest server_id available expected devices ≡ ok [])
        ↔ DisksFine available expected devices
  unfolding smart_tasks
  smart_tasks-nil_iff server_id true expected devices = device_tasks-nil_iff server_id devices
  smart_tasks-nil_iff server_id false false devices = (λ _. refl, λ _. refl)
  smart_tasks-nil_iff server_id false true devices = (λ h. absurd (one_made _ h), λ h. cc)
    where
      one_made : (call : Views OperationsTask) → (call >>= λ t. ok (t ∷ [])) ≡ ok [] → ⊥
      one_made (ok t) h = cc
      one_made (err e) h = cc

-- Lists of tasks that are made one behind the other and joined are nothing together only if each is.
joined-nil_iff :
    (a b c d : Views (List OperationsTask)) (tasks : List OperationsTask)
    → (a >>= λ w. b >>= λ x. c >>= λ y. d >>= λ z. ok (w ++ (x ++ (y ++ z)))) ≡ ok tasks
    → (tasks ≡ []) ↔ ((a ≡ ok []) × (b ≡ ok []) × (c ≡ ok []) × (d ≡ ok []))
joined-nil_iff (err e) b c d tasks h = cc
joined-nil_iff (ok w) (err e) c d tasks h = cc
joined-nil_iff (ok w) (ok x) (err e) d tasks h = cc
joined-nil_iff (ok w) (ok x) (ok y) (err e) tasks h = cc
joined-nil_iff (ok w) (ok x) (ok y) (ok z) tasks h =
    let joined : w ++ (x ++ (y ++ z)) ≡ tasks = cc in
    (
      λ n.
          let (nw, n1) = (append-nil_iff w (x ++ (y ++ z))).0 (joined ∙ n) in
          let (nx, n2) = (append-nil_iff x (y ++ z)).0 n1 in
          let (ny, nz) = (append-nil_iff y z).0 n2 in (ap ok nw, ap ok nx, ap ok ny, ap ok nz),
      λ (nw, nx, ny, nz).
          sym joined
          ∙ (append-nil_iff w (x ++ (y ++ z))).1 (
            same w nw,
            (append-nil_iff x (y ++ z)).1
                (same x nx, (append-nil_iff y z).1 (same y ny, same z nz)),
          ),
    )
  where
    same :
        (ts : List OperationsTask) → ◌≡◌ {A = Views (List OperationsTask)} (ok ts) (ok []) → ts ≡ []
    same ts h = cc

module _ (hexdigest : String → String) (fromisoformat : String → Option (Bool × ℕ)) where
  -- Nothing in what has been observed calls for a task.
  abbrev pub Quiet : Evidence → Fields → ℕ → Type 0
  Quiet evidence services generated_at =
      (generated_at - evidence.observed_at ≤ 86400000000)
      × All (λ f. f.utilization < 8500) evidence.filesystems
      × NoneFailed hexdigest (fields_list services)
      × DisksFine hexdigest evidence.smart_available evidence.smart_expected evidence.smart_devices

  monitoring_tasks-nil_iff :
      (server_id : String) (evidence : Evidence) (spec services : Fields) (generated_at : ℕ)
      (tasks : List OperationsTask)
      → mapping spec "services" ≡ ok services
      → monitoring_tasks hexdigest fromisoformat server_id evidence spec generated_at ≡ ok tasks
      → (tasks ≡ []) ↔ Quiet evidence services generated_at
  unfolding monitoring_tasks failed_service_tasks
  monitoring_tasks-nil_iff server_id evidence spec services generated_at tasks found h =
      let each = joined-nil_iff _ _ _ _ tasks h in
      let age = observation_tasks-nil_iff hexdigest server_id evidence.observed_at generated_at in
      let room = filesystem_tasks-nil_iff hexdigest server_id evidence.filesystems in
      let units = service_tasks-nil_iff hexdigest server_id (fields_list services) in
      let disks =
        smart_tasks-nil_iff hexdigest server_id evidence.smart_available evidence.smart_expected
          evidence.smart_devices in
      let step : failed_service_tasks hexdigest server_id spec
          ≡ service_tasks hexdigest server_id (fields_list services) =
        rw (failed_service_tasks, found) in
      (
        λ n. let (a, b, c, d) = each.0 n in (age.0 a, room.0 b, units.0 (sym step ∙ c), disks.0 d),
        λ (a, b, c, d). each.1 (age.1 a, room.1 b, step ∙ units.1 c, disks.1 d),
      )

  -- A server that has been observed is healthy exactly if each check of its audit passes, the
  -- observation is at most a day old, no filesystem is used to 85 percent, no service has failed, and
  -- SMART is read and no disk needs a review, or it is neither read nor expected. The view is one that
  -- is returned, from the evidence given.
  pub server_operations_iff :
      (server_id hostname : String) (snapshot : ObservedServerSnapshot) (audit : ServerAudit)
      (generated_at : ℕ) (spec services : Fields) (evidence : Evidence) (view : ServerOperations)
      → mapping snapshot.content "spec" ≡ ok spec
      → mapping spec "services" ≡ ok services
      → read_evidence hexdigest fromisoformat spec ≡ ok evidence
      → server_operations hexdigest fromisoformat server_id hostname
          (some snapshot)
          audit
          generated_at
        ≡ ok view
      → (view.health ≡ healthy) ↔ (All Passing audit.checks × Quiet evidence services generated_at)
  unfolding server_operations
  server_operations_iff server_id hostname snapshot audit generated_at spec services evidence view
        m1 m2 m3 h =
      let opened = rw (server_operations, m1, m3) at h in
      let (from_audit, made, rest) =
        >>=-eq-ok (audit_tasks hexdigest server_id audit.checks) _ opened in
      let (monitoring, watched, last) =
        >>=-eq-ok (monitoring_tasks hexdigest fromisoformat server_id evidence spec generated_at) _
          rest in
      let checks = audit_tasks-nil_iff hexdigest server_id audit.checks in
      let quiet =
        monitoring_tasks-nil_iff server_id evidence spec services generated_at monitoring m2
          watched in
      let tasks = from_audit ++ monitoring in
      let same : task_health (sort_tasks tasks) ≡ view.health = cc in
      let parts = append-nil_iff from_audit monitoring in
      (
        λ c.
            let (a, b) =
              parts.0 (
                (sort_tasks-nil_iff tasks).0 ((task_health_iff (sort_tasks tasks)).0 (same ∙ c))) in
            (checks.0 (made ∙ ap ok a), quiet.0 b),
        λ (passing, calm).
            sym same
            ∙ (task_health_iff (sort_tasks tasks)).1 (
                (sort_tasks-nil_iff tasks).1
                  (parts.1 (no_tasks from_audit (sym made ∙ checks.1 passing), quiet.1 calm))),
      )
    where
      no_tasks :
          (ts : List OperationsTask)
          → ◌≡◌ {A = Views (List OperationsTask)} (ok ts) (ok [])
          → ts ≡ []
      no_tasks ts h = cc
