-- ===== src/Decision/Propose/Laws.antt =====
-- What `propose` does: one check-mode run, one record more, and the older open proposals of the same
-- call closed.
use cloudfall.Base.{String, ◌<>◌, true, false, none, some, List, [], ◌∷◌}
use cloudfall.Base.{inl, inr, ◌⊎◌, ◌≡◌, refl, ◌∙◌, arith, string_eq, option_eq, ◌==◌}
use cloudfall.Base.{Member, Bool-cases}
use cloudfall.Base.Int.{ℤ}
use cloudfall.Base.Dict.{lookup, lookup-put}
use cloudfall.Base.Results.{ok, err}
use cloudfall.Decision.Records.{status_eq, targets_eq, inputs_eq, Decision}
use cloudfall.Decision.Errors.{DecisionError, Checked, run_timed_out}
use cloudfall.Decision.World.{Moment, Launch, Controller, World, and_then}
use cloudfall.Decision.World.Binds.{bind-post}
use cloudfall.Decision.Store.Laws.{stored, update-post, save-post}
use cloudfall.Decision.Run.{◌/◌}
use cloudfall.Decision.Run.Laws.{job_of, ran_job, launch-post}
use cloudfall.Decision.Prepare.{ProposalRequest, Prepared, prepare}
use cloudfall.Decision.Propose.{
  close, replaces, supersede, new_decision, record_proposal, check_and_record, propose,
}

-- A record after closing is the record before, or one of that id that was closed.
abbrev pub KeptOrClosed : Decision → String → World → World → Type 0
KeptOrClosed d j u v =
    (lookup j v.records ≡ lookup j u.records)
    ⊎ ((older : Decision) × (lookup j v.records ≡ some (close d.decision_id older))
        × (older.decision_id ≡ j))

module _ (c : Controller) where
  -- The job of check mode.
  abbrev pub check_job : Prepared → Launch
  check_job p = job_of p.command (c.directory / (p.id <> ".diff"))

  -- A run of the loop keeps the runs and the artifacts.
  pub supersede-frame :
      (d : Decision) (olders : List Decision) (u : World)
      → ((supersede c d olders u).1.runs ≡ u.runs)
        × ((supersede c d olders u).1.artifacts ≡ u.artifacts)
  unfolding supersede
  supersede-frame d [] u = (refl, refl)
  supersede-frame d (older ∷ rest) u = elim (Bool-cases (replaces d older)) [
    | inl yes' ↦ rw yes' (
        update-post c
          (λ r.
            let v = (and_then (λ _. supersede c d rest) r.0 r.1).1 in
            (v.runs ≡ u.runs) × (v.artifacts ≡ u.artifacts))
          (close d.decision_id older) u
          (λ _. supersede-frame d rest (stored (close d.decision_id older) u)) (λ e. (refl, refl)))
    | inr no' ↦ rw no' (supersede-frame d rest u)
  ]

  KeptOrClosed-stored :
      (d older : Decision) (u v : World) (j : String)
      → KeptOrClosed d j (stored (close d.decision_id older) u) v
      → KeptOrClosed d j u v
  KeptOrClosed-stored d older u v j (inr closed) = inr closed
  KeptOrClosed-stored d older u v j (inl e) = elim (Bool-cases (j == older.decision_id)) [
    | inl same ↦ inr (older, e ∙ rw (lookup-put, same), ground arith)
    | inr other ↦ inl (e ∙ rw (lookup-put, other))
  ]

  -- Each record is kept by the loop, or closed.
  pub supersede-KeptOrClosed :
      (d : Decision) (olders : List Decision) (u : World) (j : String)
      → KeptOrClosed d j u (supersede c d olders u).1
  unfolding supersede
  supersede-KeptOrClosed d [] u j = inl refl
  supersede-KeptOrClosed d (older ∷ rest) u j = elim (Bool-cases (replaces d older)) [
    | inl yes' ↦ rw yes' (
        update-post c (λ r. KeptOrClosed d j u (and_then (λ _. supersede c d rest) r.0 r.1).1)
          (close d.decision_id older) u
          (λ _.
            KeptOrClosed-stored d older u
              (supersede c d rest (stored (close d.decision_id older) u)).1 j
              (supersede-KeptOrClosed d rest (stored (close d.decision_id older) u) j))
          (λ e. inl refl))
    | inr no' ↦ rw no' (supersede-KeptOrClosed d rest u j)
  ]

  -- The first step of a loop that returns: the decision is closed if the new one replaces it.
  supersede_first :
      (d o : Decision) (rest : List Decision) (u v : World)
      → supersede c d (o ∷ rest) u ≡ (ok tt, v)
      → replaces d o ≡ true
      → supersede c d rest (stored (close d.decision_id o) u) ≡ (ok tt, v)
  unfolding supersede
  supersede_first d o rest u v h r =
      update-post c
        (λ x.
          and_then (λ _. supersede c d rest) x.0 x.1 ≡ (ok tt, v)
          → supersede c d rest (stored (close d.decision_id o) u) ≡ (ok tt, v))
        (close d.decision_id o) u (λ _ k. k) (λ e k. cc) (rw (supersede, r) at h)

  supersede_skip :
      (d o : Decision) (rest : List Decision) (u v : World)
      → supersede c d (o ∷ rest) u ≡ (ok tt, v)
      → replaces d o ≡ false
      → supersede c d rest u ≡ (ok tt, v)
  unfolding supersede
  supersede_skip d o rest u v h r = rw (supersede, r) at h

  -- A loop that returns has closed every older decision that the new one replaces.
  pub supersede_closes :
      (d : Decision) (olders : List Decision) (u v : World) (older : Decision)
      → supersede c d olders u ≡ (ok tt, v)
      → Member older olders
      → replaces d older ≡ true
      → (x : Decision) × (lookup older.decision_id v.records ≡ some (close d.decision_id x))
  supersede_closes d [] u v older h m r = elim m [ ]
  supersede_closes d (o ∷ rest) u v older h (inl e) r =
      let r' : replaces d o ≡ true = rw (← e) r in
      let k = supersede_first d o rest u v h r' in
      let u' = stored (close d.decision_id o) u in
      elim (rw k at (supersede-KeptOrClosed d rest u' older.decision_id)) [
        | inl kept ↦ (o, kept ∙ rw (lookup-put, e) (ground arith))
        | inr (x, closed, _) ↦ (x, closed)
      ]
  supersede_closes d (o ∷ rest) u v older h (inr m) r = elim (Bool-cases (replaces d o)) [
    | inl r' ↦
        supersede_closes d rest (stored (close d.decision_id o) u) v older
          (supersede_first d o rest u v h r') m r
    | inr r' ↦ supersede_closes d rest u v older (supersede_skip d o rest u v h r') m r
  ]

  -- A proposal is refused and nothing happens; or check mode runs and no record is written; or it runs,
  -- the new decision is saved under a new id, and the loop over the older ones follows.
  pub propose-post :
      (Q : Checked Decision × World → Type 0) (request : ProposalRequest) (moment : Moment)
      (w : World)
      → ((e : DecisionError) → prepare c request moment w ≡ err e → Q (err e, w))
      → ((p : Prepared) (e : DecisionError)
          → prepare c request moment w ≡ ok p
          → Q (err e, ran_job c (check_job p) w))
      → ((p : Prepared) (code : ℤ) (d : Decision)
          → prepare c request moment w ≡ ok p
          → let u = ran_job c (check_job p) w in
            (c.run w.runs (check_job p)).exit_code ≡ some code
            → d
              ≡ new_decision c request p.id moment p.inputs p.pattern
                  (code, (c.run w.runs (check_job p)).reports)
                  u
            → lookup d.decision_id w.records ≡ none
            → let r = supersede c d p.recorded (stored d u) in
              Q (and_then (λ _ v. (ok d, v)) r.0 r.1))
      → Q (propose c request moment w)
  unfolding propose
  propose-post Q request moment w refused stopped done =
      bind-post Q (λ w. (prepare c request moment w, w)) (check_and_record c request moment) w
        refused
        λ p made.
          launch-post c
            (λ r. Q (
              and_then
                (λ out w.
                  record_proposal c (new_decision c request p.id moment p.inputs p.pattern out w)
                    p.recorded w)
                r.0 r.1))
            p.command (c.directory / (p.id <> ".diff")) w
            (λ code e.
              let u = ran_job c (check_job p) w in
              let d =
                new_decision c request p.id moment p.inputs p.pattern
                  (code, (c.run w.runs (check_job p)).reports) u in
              save-post c
                (λ r. Q (
                  and_then
                    (λ _ w.
                      let s = supersede c d p.recorded w in and_then (λ _ v. (ok d, v)) s.0 s.1)
                    r.0 r.1))
                d u (λ fresh. done p code d made e refl fresh) (λ e. stopped p e made))
            (λ late. stopped p run_timed_out made)
