-- ===== src/Operator/Sound.antt =====
-- The invariant of the receipts, and every history of passes and approvals.
use cloudfall.Base.{String, true, Option, none, some, if◌then◌else◌}
use cloudfall.Base.{inl, inr, ◌⊎◌, ◌≡◌, ◌≢◌, refl, sym, ◌∙◌, ap, arith, string_eq, ◌==◌}
use cloudfall.Base.Dict.{lookup}
use cloudfall.Decision.Records.{ApprovalChannel}
use cloudfall.Operator.Records.{proposed, is_blocking, ApprovalRecord, OperatorProposal}
use cloudfall.Operator.World.{Site, World}
use cloudfall.Operator.Approve.{ApproveOptions, approve, execute_and_verify}
use cloudfall.Operator.Approve.Promises.{IsReceiptOf, Moved, execute_and_verify-Moved, approve-post}

pub record IsSound (w : World) : Type 0 where
  -- A receipt is stored under its own id.
  pub keyed :
      (j : String) (p : OperatorProposal) → lookup j w.proposals ≡ some p → p.resource_id ≡ j
  -- A receipt that is open no more names who licensed the execution.
  pub licensed :
      (j : String) (p : OperatorProposal)
      → lookup j w.proposals ≡ some p
      → p.status ≢ proposed
      → p.approval ≢ none
  -- No two receipts that block a fingerprint block the same one.
  pub single :
      (i j : String) (p q : OperatorProposal)
      → lookup i w.proposals ≡ some p
      → lookup j w.proposals ≡ some q
      → is_blocking p.status ≡ true
      → is_blocking q.status ≡ true
      → p.fingerprint ≡ q.fingerprint
      → i ≡ j

same_proposals-IsSound : (w v : World) → v.proposals ≡ w.proposals → IsSound w → IsSound v
same_proposals-IsSound w v same s = record {
  keyed = λ j p h. s.keyed j p (rw same at h);
  licensed = λ j p h. s.licensed j p (rw same at h);
  single = λ i j p q hi hj. s.single i j p q (rw same at hi) (rw same at hj);
}

-- An execution of an open proposal moves a sound state to a sound one.
module _ (approval : ApprovalRecord) (p q : OperatorProposal) (w v : World) (s : IsSound w)
    (there : lookup p.resource_id w.proposals ≡ some p) (pending : p.status ≡ proposed)
    (made : IsReceiptOf approval p q)
    (over : (j : String)
      → lookup j v.proposals ≡ (if j == p.resource_id then some q else lookup j w.proposals)) where
  origin :
      (j : String) (x : OperatorProposal)
      → lookup j v.proposals ≡ some x
      → ((j ≡ p.resource_id) × (q ≡ x)) ⊎ (lookup j w.proposals ≡ some x)
  origin j x h = ground (arith, over j)

  moved-keyed :
      (j : String) (x : OperatorProposal) → lookup j v.proposals ≡ some x → x.resource_id ≡ j
  moved-keyed j x h = elim (origin j x h) [
    | inl (at, it) ↦ ap (λ z. z.resource_id) (sym it) ∙ made.same_id ∙ sym at
    | inr old ↦ s.keyed j x old
  ]

  moved-licensed :
      (j : String) (x : OperatorProposal)
      → lookup j v.proposals ≡ some x
      → x.status ≢ proposed
      → x.approval ≢ none
  moved-licensed j x h n = elim (origin j x h) [
    | inl (at, it) ↦ λ e.
        let t : ◌≡◌ {A = Option ApprovalRecord} (some approval) none =
          sym made.licensed ∙ ap (λ z. z.approval) it ∙ e in
        cc
    | inr old ↦ s.licensed j x old n
  ]

  moved-single :
      (i j : String) (x y : OperatorProposal)
      → lookup i v.proposals ≡ some x
      → lookup j v.proposals ≡ some y
      → is_blocking x.status ≡ true
      → is_blocking y.status ≡ true
      → x.fingerprint ≡ y.fingerprint
      → i ≡ j
  moved-single i j x y hi hj bx by e =
      let open_blocks : is_blocking p.status ≡ true = rw pending refl in
      elim (origin i x hi) [
        | inl (pi, qx) ↦ elim (origin j y hj) [
          | inl (pj, qy) ↦ pi ∙ sym pj
          | inr wj ↦
              pi
              ∙ s.single p.resource_id j p y there wj open_blocks by
                  (sym made.same_fingerprint ∙ ap (λ z. z.fingerprint) qx ∙ e)
        ]
        | inr wi ↦ elim (origin j y hj) [
          | inl (pj, qy) ↦
              s.single i p.resource_id x p wi there bx open_blocks
                (e ∙ sym (ap (λ z. z.fingerprint) qy) ∙ made.same_fingerprint)
              ∙ sym pj
          | inr wj ↦ s.single i j x y wi wj bx by e
        ]
      ]

Moved-IsSound :
    (approval : ApprovalRecord) (p : OperatorProposal) (w v : World)
    → IsSound w
    → lookup p.resource_id w.proposals ≡ some p
    → p.status ≡ proposed
    → Moved approval p w v
    → IsSound v
Moved-IsSound approval p w v s there pending (inl same) = same_proposals-IsSound w v same s
Moved-IsSound approval p w v s there pending (inr (q, made, over)) = record {
  keyed = moved-keyed approval p q w v s there pending made over;
  licensed = moved-licensed approval p q w v s there pending made over;
  single = moved-single approval p q w v s there pending made over;
}

-- An execution of an open receipt keeps the receipts sound, whatever comes of it.
pub execute_and_verify-IsSound :
    (site : Site) (p : OperatorProposal) (approval : ApprovalRecord) (options : ApproveOptions)
    (w : World)
    → lookup p.resource_id w.proposals ≡ some p
    → p.status ≡ proposed
    → IsSound w
    → IsSound (execute_and_verify site p approval options w).1
execute_and_verify-IsSound site p approval options w there pending s =
    Moved-IsSound approval p w (execute_and_verify site p approval options w).1 s there pending
      (execute_and_verify-Moved site p approval options w)

-- An approval keeps the receipts sound, whatever comes of it.
pub operator_approve-IsSound :
    (site : Site) (id : String) (via : ApprovalChannel) (options : ApproveOptions) (w : World)
    → IsSound w
    → IsSound (approve site id via options w).1
operator_approve-IsSound site id via options w s =
    approve-post site id via options w (λ r. IsSound r.1) (λ e _. s)
      (λ p there pending _.
        execute_and_verify-IsSound site p _ options w
          (ap (λ k. lookup k w.proposals) (s.keyed id p there) ∙ there) pending s)
