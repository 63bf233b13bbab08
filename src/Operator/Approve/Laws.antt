-- ===== src/Operator/Approve/Laws.antt =====
-- How an execution can end, for a caller that knows nothing of the loop inside.
use cloudfall.Base.{
  ℕ, zero, suc, ◌+◌, ◌≤◌, ◌<◌, String, Bool, true, false, leb, none, some, List, ◌∷◌, [], ◌++◌,
}
use mathlib.Core.List.{append-nil, append_assoc}
use cloudfall.Base.{◌≡◌, ◌≢◌, refl, ◌∙◌, inl, inr, Bool-cases, string_eq, arith}
use cloudfall.Base.Dict.{lookup, put}
use cloudfall.Base.Results.{Result, ok, err}
use cloudfall.Base.Effects.{pure, resume}
use cloudfall.Decision.Records.{ApprovalChannel, terminal}
use cloudfall.Operator.Records.{proposed, ApprovalRecord, OperatorProposal}
use cloudfall.Operator.World.{
  Fault, coded, other, OperatorError, fault, still_running, Event, run, ask, wait, Site, World,
  Checked,
}
use cloudfall.Operator.Store.{load}
use cloudfall.Operator.Store.Laws.{stored, update-post}
use cloudfall.Operator.Approve.{
  ApproveOptions, failed_receipt, executed_receipt, settled_receipt, settle, verify_until, conclude,
  execute_and_verify, admit,
}

module _ (site : Site) where
  module _ (p done : OperatorProposal) (executed_at : String) (options : ApproveOptions) where
    -- The receipt of a verification that ends in that state of the world.
    abbrev pub receipt : Bool → World → OperatorProposal
    receipt found v =
        settled_receipt found done executed_at (site.now v.events) options.verify_timeout

    settle-post :
        (Q : Checked OperatorProposal × World → Type 0) (found : Bool) (w : World)
        → ((e : OperatorError) → e ≢ still_running → Q (err e, w))
        → (lookup done.resource_id w.proposals ≢ none
            → Q (ok (receipt found w), stored (receipt found w) w))
        → Q (settle site p done executed_at options found w)
    unfolding settle
    settle-post Q true w refused kept =
        update-post site (λ r. Q (resume (λ _. pure (receipt true w)) r.0 r.1)) (receipt true w) w
          kept refused
    settle-post Q false w refused kept =
        update-post site (λ r. Q (resume (λ _. pure (receipt false w)) r.0 r.1)) (receipt false w) w
          kept refused

    -- What one round leaves behind when it neither raises nor settles.
    abbrev pub slept : World → World
    slept w = record w {
      events = (w.events ++ (ask p.resource_id ∷ [])) ++ (wait options.poll_interval ∷ []);
    }

    -- One round of the loop raises, settles by the verifier's answer, or sleeps and leaves the rest.
    round-post :
        (Q : Checked OperatorProposal × World → Type 0) (rounds waited : ℕ) (w : World)
        → ((e : OperatorError) (v : World)
            → e ≢ still_running
            → v.proposals ≡ w.proposals
            → Q (err e, v))
        → ((found : Bool) (v : World)
            → site.verify w.events p ≡ ok found
            → v.events ≡ w.events ++ (ask p.resource_id ∷ [])
            → v.proposals ≡ w.proposals
            → lookup done.resource_id w.proposals ≢ none
            → Q (ok (receipt found v), stored (receipt found v) v))
        → (leb options.verify_timeout waited ≡ false
            → Q (
                verify_until site p done executed_at options rounds
                  (waited + options.poll_interval)
                  (slept w)))
        → Q (verify_until site p done executed_at options (suc rounds) waited w)
    unfolding verify_until
    round-post Q rounds waited w raised settled again = go (site.verify w.events p) refl
      where
        asked : World
        asked = record w { events = w.events ++ (ask p.resource_id ∷ []) }

        go :
            (r : Result Fault Bool)
            → site.verify w.events p ≡ r
            → Q (verify_until site p done executed_at options (suc rounds) waited w)
        go (err x) h = rw (verify_until, h) (raised (fault x) asked (λ q. cc) refl)
        go (ok true) h =
            rw (verify_until, h)
              (settle-post Q true asked (λ e n. raised e asked n refl)
                (settled true asked h refl refl))
        go (ok false) h = elim (Bool-cases (leb options.verify_timeout waited)) [
          | inl late ↦
              rw (verify_until, h, late)
                (settle-post Q false asked (λ e n. raised e asked n refl)
                  (settled false asked h refl refl))
          | inr early ↦ rw (verify_until, h, early) (again early)
        ]

    -- The loop raises with every receipt as it was, or records and returns what the verifier's last
    -- answer calls for.
    pub verify_until-post :
        (Q : Checked OperatorProposal × World → Type 0) (rounds waited : ℕ) (w : World)
        → ((e : OperatorError) (v : World) → v.proposals ≡ w.proposals → Q (err e, v))
        → ((found : Bool) (later : List Event) (v : World)
            → site.verify (w.events ++ later) p ≡ ok found
            → v.events ≡ (w.events ++ later) ++ (ask p.resource_id ∷ [])
            → v.proposals ≡ w.proposals
            → lookup done.resource_id w.proposals ≢ none
            → Q (ok (receipt found v), stored (receipt found v) v))
        → Q (verify_until site p done executed_at options rounds waited w)
    unfolding verify_until
    verify_until-post Q zero waited w raised settled = raised still_running w refl
    verify_until-post Q (suc rounds) waited w raised settled =
        round-post Q rounds waited w (λ e v _ same. raised e v same)
          (λ found v answer last.
            let none_later : w.events ++ [] ≡ w.events = append-nil w.events in
            settled found [] v (rw none_later answer) (rw none_later last))
          (λ _.
            verify_until-post Q rounds (waited + options.poll_interval) (slept w) raised
              (λ found later v answer last.
                let longer : (slept w).events ++ later
                    ≡ w.events ++ (ask p.resource_id ∷ wait options.poll_interval ∷ later) =
                  append_assoc (w.events ++ (ask p.resource_id ∷ []))
                    (wait options.poll_interval ∷ []) later
                  ∙ append_assoc w.events (ask p.resource_id ∷ [])
                      (wait options.poll_interval ∷ later) in
                settled found (ask p.resource_id ∷ wait options.poll_interval ∷ later) v
                  (rw (← longer) answer) (rw (← longer) last)))

    -- The loop comes to an end: it has enough rounds if each of them waits.
    pub verify_until_ends :
        (rounds waited : ℕ) (w : World)
        → 1 ≤ options.poll_interval
        → 1 ≤ rounds
        → options.verify_timeout < waited + rounds
        → (verify_until site p done executed_at options rounds waited w).0 ≢ err still_running
    verify_until_ends zero waited w poll some_round enough = omega arith
    verify_until_ends (suc rounds) waited w poll some_round enough =
        round-post (λ r. r.0 ≢ err still_running) rounds waited w (λ e v n _ q. n cc)
          (λ found v _ _ _ q. cc)
          (λ early.
            verify_until_ends rounds (waited + options.poll_interval) (slept w) poll (grind arith)
              (grind arith))

  -- An execution raises with the receipts as they were, or with the failure recorded, or with the
  -- execution recorded and not verified; or it records and returns what the last answer calls for.
  pub execute_and_verify-post :
      (Q : Checked OperatorProposal × World → Type 0) (p : OperatorProposal)
      (approval : ApprovalRecord) (options : ApproveOptions) (w : World)
      → let at = site.now w.events in
        let done = executed_receipt p approval at in
        ((e : OperatorError) (v : World) → v.proposals ≡ w.proposals → Q (err e, v))
        → ((code message : String) (v : World)
            → site.execute w.events p ≡ err (coded code message)
            → lookup p.resource_id w.proposals ≢ none
            → v.proposals
              ≡ put p.resource_id (failed_receipt p approval at code message) w.proposals
            → Q (err (fault (coded code message)), v))
        → ((e : OperatorError) (v : World)
            → site.execute w.events p ≡ ok tt
            → lookup p.resource_id w.proposals ≢ none
            → v.proposals ≡ put p.resource_id done w.proposals
            → Q (err e, v))
        → ((found : Bool) (later : List Event) (v : World)
            → let asked = (w.events ++ (run p.resource_id ∷ [])) ++ later in
              site.execute w.events p ≡ ok tt
              → site.verify asked p ≡ ok found
              → v.events ≡ asked ++ (ask p.resource_id ∷ [])
              → lookup p.resource_id w.proposals ≢ none
              → v.proposals ≡ put p.resource_id done w.proposals
              → Q (
                ok (receipt p done at options found v),
                stored (receipt p done at options found v) v,
              ))
        → Q (execute_and_verify site p approval options w)
  unfolding execute_and_verify conclude
  execute_and_verify-post Q p approval options w raised broken interrupted settled =
      go (site.execute w.events p) refl
    where
      at : String
      at = site.now w.events

      ran : World
      ran = record w { events = w.events ++ (run p.resource_id ∷ []) }

      go :
          (r : Result Fault (Unit {0}))
          → site.execute w.events p ≡ r
          → Q (execute_and_verify site p approval options w)
      go (err other) h = rw (execute_and_verify, h) (raised (fault other) ran refl)
      go (err (coded code message)) h =
          rw (execute_and_verify, h)
            (update-post site
              (λ r. Q (resume (λ _ v. (err (fault (coded code message)), v)) r.0 r.1))
              (failed_receipt p approval at code message) ran
              (λ there. broken code message _ h there refl) (λ e _. raised e ran refl))
      go (ok tt) h =
          rw (execute_and_verify, h)
            (update-post site
              (λ r. Q (
                resume
                  (λ _.
                    verify_until site p (executed_receipt p approval at) at options
                      (suc options.verify_timeout) 0)
                  r.0 r.1))
              (executed_receipt p approval at) ran
              (λ there.
                verify_until-post p (executed_receipt p approval at) at options Q
                  (suc options.verify_timeout) 0 (stored (executed_receipt p approval at) ran)
                  (λ e v same. interrupted e v h there same)
                  (λ found later v answer last same _.
                    settled found later v h answer last there same))
              (λ e _. raised e ran refl))

  -- An execution comes to an end, if the interval between two questions is not zero.
  pub execute_and_verify_ends :
      (p : OperatorProposal) (approval : ApprovalRecord) (options : ApproveOptions) (w : World)
      → 1 ≤ options.poll_interval
      → (execute_and_verify site p approval options w).0 ≢ err still_running
  unfolding execute_and_verify conclude
  execute_and_verify_ends p approval options w poll = go (site.execute w.events p) refl
    where
      at : String
      at = site.now w.events

      ran : World
      ran = record w { events = w.events ++ (run p.resource_id ∷ []) }

      go :
          (r : Result Fault (Unit {0}))
          → site.execute w.events p ≡ r
          → (execute_and_verify site p approval options w).0 ≢ err still_running
      go (err other) h = rw (execute_and_verify, h) (λ q. cc)
      go (err (coded code message)) h =
          rw (execute_and_verify, h)
            (update-post site
              (λ r.
                (resume {B = OperatorProposal} (λ _ v. (err (fault (coded code message)), v)) r.0
                  r.1).0
                ≢ err still_running)
              (failed_receipt p approval at code message) ran (λ _ q. cc) (λ e n q. n cc))
      go (ok tt) h =
          rw (execute_and_verify, h)
            (update-post site
              (λ r.
                (resume
                  (λ _.
                    verify_until site p (executed_receipt p approval at) at options
                      (suc options.verify_timeout) 0)
                  r.0 r.1).0
                ≢ err still_running)
              (executed_receipt p approval at) ran
              (λ _.
                verify_until_ends p (executed_receipt p approval at) at options
                  (suc options.verify_timeout) 0 (stored (executed_receipt p approval at) ran) poll
                  (omega arith) (omega arith))
              (λ e n q. n cc))

  -- The checks of `approve` pass for an open proposal that is recorded and a known channel.
  pub admit-eq-ok :
      (id : String) (via : ApprovalChannel) (w : World) {p : OperatorProposal}
      → admit site id via w ≡ ok p
      → (lookup id w.proposals ≡ some p) × (p.status ≡ proposed) × (via ≡ terminal)
  unfolding admit load
  admit-eq-ok id via w h = ground arith

  pub admit_ends :
      (id : String) (via : ApprovalChannel) (w : World) → admit site id via w ≢ err still_running
  unfolding admit load
  admit_ends id via w h = ground arith
