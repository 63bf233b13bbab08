-- ===== src/Operator/Approve/Promises.antt =====
-- What a caller of `approve` of operator.py may rely on.
use cloudfall.Base.{
  ℕ, ◌≤◌, String, Bool, true, false, if◌then◌else◌, none, some, List, [], ◌∷◌, ◌++◌,
}
use cloudfall.Base.{sym}
use cloudfall.Base.{◌≡◌, ◌≢◌, refl, ap, ◌∙◌, inl, inr, ◌⊎◌, ◌==◌, string_eq, arith}
use mathlib.Core.Path.{subst}
use cloudfall.Base.Dict.{lookup, put, lookup-put}
use cloudfall.Base.Results.{ok, err}
use cloudfall.Base.Effects.{ok-pair-injective}
use cloudfall.Decision.Records.{ApprovalChannel, terminal}
use cloudfall.Operator.Records.{proposed, verified, failed, ApprovalRecord, OperatorProposal}
use cloudfall.Operator.World.{OperatorError, still_running, Event, run, ask, Site, World, Checked}
use cloudfall.Operator.Approve.{
  ApproveOptions, failed_receipt, executed_receipt, settled_receipt, execute_and_verify, admit,
  approve,
}
use cloudfall.Operator.Approve.Laws.{
  admit_ends, receipt, execute_and_verify-post, execute_and_verify_ends, admit-eq-ok,
}

-- The receipt `q` is what an execution under that approval makes of the proposal `p`.
pub record IsReceiptOf (approval : ApprovalRecord) (p q : OperatorProposal) : Type 0 where
  pub same_id : q.resource_id ≡ p.resource_id
  pub same_fingerprint : q.fingerprint ≡ p.fingerprint
  pub not_open : q.status ≢ proposed
  pub licensed : q.approval ≡ some approval

-- At most the receipt of `p` has changed, and to one of an execution under that approval.
abbrev pub Moved : ApprovalRecord → OperatorProposal → World → World → Type 0
Moved approval p w v =
    (v.proposals ≡ w.proposals)
    ⊎ ((q : OperatorProposal) × IsReceiptOf approval p q
        × ((j : String)
            → lookup j v.proposals ≡ (if j == p.resource_id then some q else lookup j w.proposals)))

-- What the verifier's last answer in the events `after`, which begin with the run of the engine after
-- the events `before`, says of a receipt.
abbrev pub Answered : Site → OperatorProposal → List Event → List Event → OperatorProposal → Type 0
Answered site p before after d =
    (later : List Event) × (let asked = (before ++ (run p.resource_id ∷ [])) ++ later in
      (after ≡ asked ++ (ask p.resource_id ∷ []))
      × (((d.status ≡ verified) × (site.verify asked p ≡ ok true))
          ⊎ ((d.status ≡ failed) × (site.verify asked p ≡ ok false))))

settled_receipt-IsReceiptOf :
    (found : Bool) (approval : ApprovalRecord) (p : OperatorProposal) (at now : String)
    (timeout : ℕ)
    → IsReceiptOf approval p (settled_receipt found (executed_receipt p approval at) at now timeout)
settled_receipt-IsReceiptOf true approval p at now timeout = record {
  same_id = refl;
  same_fingerprint = refl;
  not_open = λ e. cc;
  licensed = refl;
}
settled_receipt-IsReceiptOf false approval p at now timeout = record {
  same_id = refl;
  same_fingerprint = refl;
  not_open = λ e. cc;
  licensed = refl;
}

settled_receipt-Answered :
    (site : Site) (found : Bool) (approval : ApprovalRecord) (p : OperatorProposal)
    (at now : String) (timeout : ℕ) (before later after : List Event)
    → let asked = (before ++ (run p.resource_id ∷ [])) ++ later in
      site.verify asked p ≡ ok found
      → after ≡ asked ++ (ask p.resource_id ∷ [])
      → Answered site p before after
          (settled_receipt found (executed_receipt p approval at) at now timeout)
settled_receipt-Answered site true approval p at now timeout before later after h last =
    (later, (last, inl (refl, h)))
settled_receipt-Answered site false approval p at now timeout before later after h last =
    (later, (last, inr (refl, h)))

put_over :
    (j k i : String) (q d : OperatorProposal) (v w : World)
    → v.proposals ≡ put k d w.proposals
    → i ≡ k
    → lookup j (put i q v.proposals) ≡ (if j == k then some q else lookup j w.proposals)
put_over j k i q d v w same e =
    rw (e, same, lookup-put) (ground (arith, lookup-put j k d w.proposals))

module _ (site : Site) (p : OperatorProposal) (approval : ApprovalRecord) (options : ApproveOptions)
    (w : World) where
  abbrev at : String
  at = site.now w.events

  -- Whatever comes of an execution, no receipt but its own has changed, and that one names who
  -- licensed the execution and is open no more.
  pub execute_and_verify-Moved : Moved approval p w (execute_and_verify site p approval options w).1
  execute_and_verify-Moved =
      execute_and_verify-post site (λ r. Moved approval p w r.1) p approval options w
        (λ e v same. inl same)
        (λ name message v _ _ same. inr (
          failed_receipt p approval at name message,
          record { same_id = refl; same_fingerprint = refl; not_open = λ e. cc; licensed = refl },
          λ j. rw same (lookup-put j p.resource_id _ w.proposals),
        ))
        (λ e v _ _ same. inr (
          executed_receipt p approval at,
          record { same_id = refl; same_fingerprint = refl; not_open = λ e. cc; licensed = refl },
          λ j. rw same (lookup-put j p.resource_id _ w.proposals),
        ))
        (λ found later v _ _ _ _ same.
          let q = receipt site p (executed_receipt p approval at) at options found v in
          let made =
            settled_receipt-IsReceiptOf found approval p at (site.now v.events)
              options.verify_timeout in
          inr (q, made, λ j. put_over j p.resource_id q.resource_id q _ v w same made.same_id))

  -- An execution that returns has run the engine and has asked the verifier, whose last answer is
  -- what the returned receipt says; that receipt is recorded in place of the proposal.
  pub execute_and_verify-Answered :
      {d : OperatorProposal} {v : World}
      → execute_and_verify site p approval options w ≡ (ok d, v)
      → (site.execute w.events p ≡ ok tt)
        × Answered site p w.events v.events d
        × IsReceiptOf approval p d
        × ((j : String)
            → lookup j v.proposals ≡ (if j == p.resource_id then some d else lookup j w.proposals))
  execute_and_verify-Answered {d} {v} =
      execute_and_verify-post site
        (λ r.
          r ≡ (ok d, v)
          → (site.execute w.events p ≡ ok tt)
            × Answered site p w.events v.events d
            × IsReceiptOf approval p d
            × ((j : String)
                → lookup j v.proposals
                  ≡ (if j == p.resource_id then some d else lookup j w.proposals)))
        p approval options w (λ e u _ h. cc) (λ name message u _ _ _ h. cc) (λ e u _ _ _ h. cc)
        (λ found later u ran answer last _ same h.
          let q = receipt site p (executed_receipt p approval at) at options found u in
          let made =
            settled_receipt-IsReceiptOf found approval p at (site.now u.events)
              options.verify_timeout in
          let (e, t) = ok-pair-injective h in
          (
            ran,
            subst (Answered site p w.events v.events) e (
                settled_receipt-Answered site found approval p at (site.now u.events)
                  options.verify_timeout w.events later v.events answer
                  (ap (λ z. z.events) (sym t) ∙ last)),
            subst (IsReceiptOf approval p) e made,
            λ j.
                subst
                  (λ x.
                    lookup j v.proposals
                    ≡ (if j == p.resource_id then some x else lookup j w.proposals))
                  e
                  (subst
                    (λ z.
                      lookup j z.proposals
                      ≡ (if j == p.resource_id then some q else lookup j w.proposals))
                    t (put_over j p.resource_id q.resource_id q _ u w same made.same_id)),
          ))

module _ (site : Site) (id : String) (via : ApprovalChannel) (options : ApproveOptions)
    (w : World) where
  abbrev by_human : ApprovalRecord
  by_human = record { mode = "human"; policy = none; via = some via }

  pub approve-post :
      (Q : Checked OperatorProposal × World → Type 0)
      → ((e : OperatorError) → e ≢ still_running → Q (err e, w))
      → ((p : OperatorProposal)
          → lookup id w.proposals ≡ some p
          → p.status ≡ proposed
          → via ≡ terminal
          → Q (execute_and_verify site p by_human options w))
      → Q (approve site id via options w)
  unfolding approve
  approve-post Q refused admitted = go (admit site id via w) refl
    where
      go :
          (r : Checked OperatorProposal)
          → admit site id via w ≡ r
          → Q (approve site id via options w)
      go (ok p) h =
          let (there, pending, typed) = admit-eq-ok site id via w h in
          rw (approve, h) (admitted p there pending typed)
      go (err e) h = rw (approve, h) (refused e (λ q. admit_ends site id via w (h ∙ ap err q)))

  -- An approval runs the engine or writes a receipt only if the receipt of that id is an open proposal
  -- and the approval came over the terminal.
  pub approve_of_open :
      (approve site id via options w).1 ≢ w
      → (p : OperatorProposal) × (lookup id w.proposals ≡ some p)
        × (p.status ≡ proposed)
        × (via ≡ terminal)
  approve_of_open =
      approve-post
        (λ r.
          r.1 ≢ w
          → (p : OperatorProposal) × (lookup id w.proposals ≡ some p)
            × (p.status ≡ proposed)
            × (via ≡ terminal))
        (λ e _ n. absurd (n refl)) (λ p there pending typed _. (p, there, pending, typed))

  -- An approval comes to an end, if the interval between two questions to the verifier is not zero.
  pub approve_ends :
      1 ≤ options.poll_interval → (approve site id via options w).0 ≢ err still_running
  approve_ends poll =
      approve-post (λ r. r.0 ≢ err still_running) (λ e n q. n cc)
        (λ p _ _ _. execute_and_verify_ends site p by_human options w poll)

  -- An approval that returns found an open proposal, ran the engine on it without an error and asked the
  -- verifier after that: the last of the calls is a question to the verifier, the receipt is verified if
  -- its answer was yes and failed if it was no, it names the human approval and its channel, and it is
  -- the one record that has changed.
  pub approve-Answered :
      {d : OperatorProposal} {v : World}
      → approve site id via options w ≡ (ok d, v)
      → (p : OperatorProposal) × (lookup id w.proposals ≡ some p)
        × (p.status ≡ proposed)
        × (site.execute w.events p ≡ ok tt)
        × Answered site p w.events v.events d
        × (d.approval ≡ some by_human)
        × ((j : String)
            → lookup j v.proposals ≡ (if j == p.resource_id then some d else lookup j w.proposals))
  approve-Answered {d} {v} =
      approve-post
        (λ r.
          r ≡ (ok d, v)
          → (p : OperatorProposal) × (lookup id w.proposals ≡ some p)
            × (p.status ≡ proposed)
            × (site.execute w.events p ≡ ok tt)
            × Answered site p w.events v.events d
            × (d.approval ≡ some by_human)
            × ((j : String)
                → lookup j v.proposals
                  ≡ (if j == p.resource_id then some d else lookup j w.proposals)))
        (λ e _ h. cc)
        (λ p there pending _ h.
          let (ran, answer, made, rest) = execute_and_verify-Answered site p by_human options w h in
          (p, there, pending, ran, answer, made.licensed, rest))
