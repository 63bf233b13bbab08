-- ===== src/Decision/Propose/Promises.antt =====
-- What a caller of `propose` may rely on.
use Prim.Native.String.{count}
use cloudfall.Base.{String, ◌<>◌, true, Option, none, some, List, [], ◌∷◌, ◌++◌}
use cloudfall.Base.{inl, inr, ◌⊎◌, ◌≡◌, ◌≢◌, refl, sym, ◌∙◌, ap, arith, string_eq}
use cloudfall.Base.{◌<◌}
use mathlib.Core.Path.{subst}
use cloudfall.Base.Json.{Json}
use cloudfall.Base.Int.{ℤ}
use cloudfall.Base.Dict.{lookup, lookup-put}
use cloudfall.Base.Results.{ok, err}
use text.Mathlib.TextLemmas.{length-append}
use cloudfall.Ids.Laws.{resource_id_of_long}
use cloudfall.Catalog.{RiskLevel, read, mutating, destructive}
use cloudfall.Decision.Records.{proposed, ran, Inputs, Decision}
use cloudfall.Decision.Errors.{DecisionError, Checked, id_error}
use cloudfall.Decision.Gate.{gate}
use cloudfall.Decision.World.{Arg, word, Moment, Launch, Controller, World}
use cloudfall.Decision.World.Binds.{and_then-world, and_then-eq-ok}
use cloudfall.Decision.Store.Laws.{stored}
use cloudfall.Decision.Run.{◌/◌}
use cloudfall.Decision.Run.Laws.{ran_job, run_command-eq-ok}
use cloudfall.Decision.Prepare.{
  ProposalRequest, Prepared, check_invocation, prepare, decision_identifier,
}
use cloudfall.Decision.Prepare.Laws.{prepare-IsPrepared}
use cloudfall.Decision.Propose.{supersede, new_decision, propose}
use cloudfall.Decision.Propose.Laws.{check_job, supersede-frame, propose-post}

-- The worlds differ by at most one run, and that one in check mode.
abbrev pub ChecksOnly : World → World → Type 0
ChecksOnly w v =
    (v.runs ≡ w.runs)
    ⊎ ((job : Launch) × (binary : String) × (rest : List Arg) × (v.runs ≡ w.runs ++ (job ∷ []))
        × (job.argv ≡ word binary ∷ word "--check" ∷ rest))

-- The decision of a fresh proposal: a read has run, and anything else waits for an approval.
abbrev pub Gated : Decision → Type 0
Gated d =
    (d.approval ≡ none)
    × (d.execution ≡ none)
    × (d.requirement ≡ (gate d.risk).0)
    × (d.risk ≡ read → (d.status ≡ ran) × (d.ran_exit_code ≡ some d.check.exit_code))
    × (d.risk ≢ read → (d.status ≡ proposed) × (d.ran_exit_code ≡ none))

not_identified :
    (operation_id : String) (moment : Moment) (id : String)
    → 48 < count operation_id
    → count moment.stamp ≡ 14
    → decision_identifier operation_id moment ≢ ok id
unfolding decision_identifier
not_identified operation_id moment id long stamp h =
    let (e, refused) = resource_id_of_long (operation_id <> "-" <> moment.stamp) (
      omega (
        arith,
        length-append operation_id ("-" <> moment.stamp),
        length-append "-" moment.stamp,
      )) in
    let k : ◌≡◌ {A = Checked String} (err (id_error e)) (ok id) =
      rw (decision_identifier, refused) at h in
    cc

new_decision-Gated :
    (c : Controller) (request : ProposalRequest) (id : String) (moment : Moment) (inputs : Inputs)
    (pattern : Option String) (out : ℤ × List (String × Json)) (w : World)
    → Gated (new_decision c request id moment inputs pattern out w)
unfolding new_decision
new_decision-Gated c request id moment inputs pattern (code, reports) w =
    go request.operation.risk refl
  where
    go :
        (risk : RiskLevel)
        → request.operation.risk ≡ risk
        → Gated (new_decision c request id moment inputs pattern (code, reports) w)
    go read e = rw (new_decision, e) (refl, refl, refl, (λ _. (refl, refl)), (λ n. absurd (n refl)))
    go mutating e = rw (new_decision, e) (refl, refl, refl, (λ h. cc), (λ _. (refl, refl)))
    go destructive e = rw (new_decision, e) (refl, refl, refl, (λ h. cc), (λ _. (refl, refl)))

module _ (c : Controller) (request : ProposalRequest) (moment : Moment) (w : World) where
  check_job-ChecksOnly :
      (p : Prepared)
      → prepare c request moment w ≡ ok p
      → (v : World) → v.runs ≡ (ran_job c (check_job c p) w).runs
      → ChecksOnly w v
  check_job-ChecksOnly p made v e =
      let ready = prepare-IsPrepared c request moment w p made in
      let (binary, _, same) =
        run_command-eq-ok c (check_invocation c request p.inputs p.pattern p.id) true p.command
          ready.by_command in
      inr (check_job c p, binary, _, e, ap (λ command. command.argv) same)

  -- Whatever comes of a proposal, it starts at most one run, and that one in check mode.
  pub propose-ChecksOnly : ChecksOnly w (propose c request moment w).1
  propose-ChecksOnly =
      propose-post c (λ r. ChecksOnly w r.1) request moment w (λ e _. inl refl)
        (λ p e ready. check_job-ChecksOnly p ready (ran_job c (check_job c p) w) refl)
        (λ p code d ready _ _ _.
          let s = supersede c d p.recorded (stored d (ran_job c (check_job c p) w)) in
          rw (and_then-world d s.0 s.1) (
            check_job-ChecksOnly p ready s.1
              (supersede-frame c d p.recorded (stored d (ran_job c (check_job c p) w))).0))

  -- The decision of a successful proposal has the risk of its operation and the requirement that the
  -- gate sets for it; it is not approved or executed; if it is a read it has run and carries the exit
  -- code, and otherwise it is open.
  pub propose-Gated :
      {d : Decision} {v : World}
      → propose c request moment w ≡ (ok d, v)
      → (d.risk ≡ request.operation.risk) × Gated d
  unfolding new_decision
  propose-Gated {d} {v} =
      propose-post c (λ r. r ≡ (ok d, v) → (d.risk ≡ request.operation.risk) × Gated d) request
        moment w (λ e _ h. cc) (λ p e _ h. cc)
        (λ p code x ready _ made _ h.
          let s = supersede c x p.recorded (stored x (ran_job c (check_job c p) w)) in
          let (_, _, same, _) = and_then-eq-ok x s.0 s.1 v h in
          subst (λ z. (z.risk ≡ request.operation.risk) × Gated z) (sym made ∙ same)
            (
              refl,
              new_decision-Gated c request p.id moment p.inputs p.pattern
                  (code, (c.run w.runs (check_job c p)).reports) (ran_job c (check_job c p) w),
            ))

  -- A proposal that passes the checks before its run, but whose id a record already has, raises and
  -- leaves every record alone; yet check mode has run and the file `<id>.diff` holds its output.
  pub propose_same_id :
      (p : Prepared) (old : Decision)
      → prepare c request moment w ≡ ok p
      → lookup p.id w.records ≡ some old
      → let after = propose c request moment w in
        (after.1.records ≡ w.records)
        × (lookup (c.directory / (p.id <> ".diff")) after.1.artifacts
            ≡ some (c.run w.runs (check_job c p)).printed)
        × ((e : DecisionError) × (after.0 ≡ err e))
  propose_same_id p old ready taken =
      propose-post c
        (λ r.
          (r.1.records ≡ w.records)
          × (lookup (c.directory / (p.id <> ".diff")) r.1.artifacts
              ≡ some (c.run w.runs (check_job c p)).printed)
          × ((e : DecisionError) × (r.0 ≡ err e)))
        request moment w (λ e h. cc)
        (λ q e h.
          let same : q ≡ p = cc in
          subst
            (λ q.
              (w.records ≡ w.records)
              × (lookup (c.directory / (p.id <> ".diff")) (ran_job c (check_job c q) w).artifacts
                  ≡ some (c.run w.runs (check_job c p)).printed)
              × ((x : DecisionError) × (◌≡◌ {A = Checked Decision} (err e) (err x))))
            (sym same) (refl, rw lookup-put (ground arith), (e, refl)))
        (λ q code d h _ made fresh.
          let same : q ≡ p = cc in
          let named : d.decision_id ≡ q.id = unfold new_decision in ap (λ z. z.decision_id) made in
          let i : d.decision_id ≡ p.id = named ∙ ap (λ z. z.id) same in
          let k : ◌≡◌ {A = Option Decision} none (some old) = sym fresh ∙ rw i taken in cc)

  -- A proposal of an operation whose id is longer than 48 characters raises, at every moment whose
  -- stamp has 14 characters, and changes nothing.
  pub propose_of_long_id :
      48 < count request.operation.operation_id
      → count moment.stamp ≡ 14
      → (e : DecisionError) × (propose c request moment w ≡ (err e, w))
  propose_of_long_id long stamp =
      propose-post c (λ r. (e : DecisionError) × (r ≡ (err e, w))) request moment w
        (λ e _. (e, refl)) (λ p e made. absurd (unnamed p made))
        (λ p code d made _ _ _. absurd (unnamed p made))
    where
      unnamed : (p : Prepared) → prepare c request moment w ≡ ok p → ⊥
      unnamed p made =
          not_identified request.operation.operation_id moment p.id long stamp
            (prepare-IsPrepared c request moment w p made).by_id
