-- ===== src/Decision/Sound.antt =====
-- The invariant of the record, and every history of proposals and approvals.
use cloudfall.Base.{String, true, some}
use cloudfall.Base.{inl, inr, ◌⊎◌, ◌≡◌, ◌≢◌, refl, sym, ◌∙◌, ap, arith, string_eq, option_eq}
use mathlib.Core.Path.{subst}
use mathlib.Core.Option.{some-injective}
use cloudfall.Base.Dict.{lookup, put, lookup-put}
use cloudfall.Base.Results.{ok, err}
use cloudfall.Decision.Records.{
  DecisionStatus, proposed, superseded, status_eq, targets_eq, inputs_eq, Decision, same_call,
}
use cloudfall.Decision.Errors.{Checked}
use cloudfall.Decision.World.{Moment, Controller, World}
use cloudfall.Decision.World.Binds.{and_then-eq-ok}
use cloudfall.Decision.Store.Laws.{stored, list_all-Member}
use cloudfall.Decision.Run.Laws.{ran_job}
use cloudfall.Decision.Prepare.{ProposalRequest}
use cloudfall.Decision.Prepare.Laws.{prepare-IsPrepared}
use cloudfall.Decision.Propose.{close, replaces, supersede, propose}
use cloudfall.Decision.Propose.Laws.{
  check_job, KeptOrClosed, supersede-KeptOrClosed, supersede_closes, propose-post,
}
use cloudfall.Decision.Approve.{ApprovalRequest, approve}
use cloudfall.Decision.Approve.Promises.{
  Earned, approve_error-records, lookup-approve, approve-Earned,
}

-- A record is stored under its own id.
abbrev pub Keyed : World → Type 0
Keyed w = (j : String) (d : Decision) → lookup j w.records ≡ some d → d.decision_id ≡ j

-- No two open proposals, live or of one recording, name the same call.
abbrev pub OneOpen : World → Type 0
OneOpen w =
    (i j : String) (d e : Decision)
    → lookup i w.records ≡ some d
    → lookup j w.records ≡ some e
    → d.status ≡ proposed
    → e.status ≡ proposed
    → d.replay ≡ e.replay
    → same_call d e ≡ true
    → i ≡ j

pub record IsSound (w : World) : Type 0 where
  pub keyed : Keyed w
  pub one_open : OneOpen w

same_call_sym : (d e : Decision) → same_call d e ≡ true → same_call e d ≡ true
unfolding same_call
same_call_sym d e h = ground arith

replaces_of_same :
    (d older : Decision)
    → older.status ≡ proposed
    → older.replay ≡ d.replay
    → same_call older d ≡ true
    → replaces d older ≡ true
replaces_of_same d older s r k = ground arith

-- A record that is open after the loop was there, as it is, before it.
open_before :
    (d : Decision) (u v : World) (j : String) (e : Decision)
    → KeptOrClosed d j u v
    → lookup j v.records ≡ some e
    → e.status ≡ proposed
    → lookup j u.records ≡ some e
open_before d u v j e (inl kept) h o = sym kept ∙ h
open_before d u v j e (inr (older, closed, _)) h o =
    let k : close d.decision_id older ≡ e = some-injective _ _ (sym closed ∙ h) in
    let t : ◌≡◌ {A = DecisionStatus} superseded proposed = ap (λ z. z.status) k ∙ o in cc

-- A new decision saved beside sound records, and the loop that closes what it replaces.
module _ (d : Decision) (w u v : World) (s : IsSound w)
    (saved : u.records ≡ put d.decision_id d w.records) (kept : (j : String) → KeptOrClosed d j u v)
    (closes : (older : Decision)
      → lookup older.decision_id w.records ≡ some older
      → replaces d older ≡ true
      → (x : Decision) × (lookup older.decision_id v.records ≡ some (close d.decision_id x))) where
  origin :
      (j : String) (e : Decision)
      → lookup j u.records ≡ some e
      → ((j ≡ d.decision_id) × (d ≡ e)) ⊎ (lookup j w.records ≡ some e)
  origin j e h =
      let k : lookup j (put d.decision_id d w.records) ≡ some e = rw saved at h in
      ground (arith, lookup-put j d.decision_id d w.records)

  closed_not_open :
      (j : String) (y : Decision)
      → lookup j w.records ≡ some y
      → lookup j v.records ≡ some y
      → y.status ≡ proposed
      → y.replay ≡ d.replay
      → same_call y d ≡ true
      → ⊥
  closed_not_open j y hw hv o r k =
      let id : y.decision_id ≡ j = s.keyed j y hw in
      let (x, closed) =
        closes y (ap (λ z. lookup z w.records) id ∙ hw) (replaces_of_same d y o r k) in
      let e : y ≡ close d.decision_id x =
        some-injective _ _ (sym hv ∙ ap (λ z. lookup z v.records) (sym id) ∙ closed) in
      let t : ◌≡◌ {A = DecisionStatus} proposed superseded = sym o ∙ ap (λ z. z.status) e in cc

  saved-Keyed : Keyed v
  saved-Keyed j e h = elim (kept j) [
    | inl same ↦ elim (origin j e (sym same ∙ h)) [
      | inl (at, it) ↦ ap (λ z. z.decision_id) (sym it) ∙ sym at
      | inr old ↦ s.keyed j e old
    ]
    | inr (older, closed, id) ↦ ap (λ z. z.decision_id) (some-injective _ _ (sym h ∙ closed)) ∙ id
  ]

  saved-OneOpen : OneOpen v
  saved-OneOpen i j x y hi hj ox oy r k = elim (origin i x (open_before d u v i x (kept i) hi ox)) [
    | inl (pi, dx) ↦ elim (origin j y (open_before d u v j y (kept j) hj oy)) [
      | inl (pj, dy) ↦ pi ∙ sym pj
      | inr wj ↦ absurd (
          closed_not_open j y wj hj oy (sym r ∙ ap (λ z. z.replay) (sym dx))
            (rw dx (same_call_sym x y k)))
    ]
    | inr wi ↦ elim (origin j y (open_before d u v j y (kept j) hj oy)) [
      | inl (pj, dy) ↦
          absurd (closed_not_open i x wi hi ox (r ∙ ap (λ z. z.replay) (sym dy)) (rw dy k))
      | inr wj ↦ s.one_open i j x y wi wj ox oy r k
    ]
  ]

  saved-IsSound : IsSound v
  saved-IsSound = record { keyed = saved-Keyed; one_open = saved-OneOpen }

-- A proposal that returns keeps the record sound.
pub propose-IsSound :
    (c : Controller) (request : ProposalRequest) (moment : Moment) (w : World) {d : Decision}
    {v : World}
    → propose c request moment w ≡ (ok d, v)
    → IsSound w
    → IsSound v
propose-IsSound c request moment w {d} {v} h s =
    propose-post c (λ r. r ≡ (ok d, v) → IsSound v) request moment w (λ e _ k. cc) (λ p e _ k. cc)
      (λ p code x made _ _ fresh k.
        let u = stored x (ran_job c (check_job c p) w) in
        let t = supersede c x p.recorded u in
        let (_, done, _, same) = and_then-eq-ok x t.0 t.1 v k in
        rw (← same) (
          saved-IsSound x w u t.1 s refl (supersede-KeptOrClosed c x p.recorded u)
            (λ older there replaced.
              supersede_closes c x p.recorded u t.1 older (λ i. (done i, t.1))
                (list_all-Member c w p.recorded older.decision_id older
                  (prepare-IsPrepared c request moment w p made).by_list there)
                replaced)))
      h

-- An approval keeps the record sound, whether it returns or raises.
pub approve-IsSound :
    (c : Controller) (request : ApprovalRequest) (moment verify_moment : Moment) (w : World)
    → IsSound w
    → IsSound (approve c request moment verify_moment w).1
approve-IsSound c request moment verify_moment w s =
    go (approve c request moment verify_moment w).0 refl
  where
    after : World
    after = (approve c request moment verify_moment w).1

    raised : after.records ≡ w.records → IsSound after
    raised same = record {
      keyed = λ j d h. s.keyed j d (rw same at h);
      one_open = λ i j d e hi hj. s.one_open i j d e (rw same at hi) (rw same at hj);
    }

    go : (r : Checked Decision) → (approve c request moment verify_moment w).0 ≡ r → IsSound after
    go (err e) h = raised (approve_error-records c request moment verify_moment w e h)
    go (ok d) h = record { keyed = kept; one_open = alone }
      where
        approved : approve c request moment verify_moment w ≡ (ok d, after)
        approved = λ i. (h i, after)

        settled : d.status ≢ proposed
        settled e =
            subst (λ x. Earned x d) e (approve-Earned c request moment verify_moment w approved)

        origin_of :
            (j : String) (e : Decision)
            → lookup j after.records ≡ some e
            → ((j ≡ request.decision.decision_id) × (d ≡ e)) ⊎ (lookup j w.records ≡ some e)
        origin_of j e k =
            ground (arith, (lookup-approve c request moment verify_moment w approved).2 j)

        kept : Keyed after
        kept j e k = elim (origin_of j e k) [
          | inl (at, it) ↦
              ap (λ z. z.decision_id) (sym it)
              ∙ (lookup-approve c request moment verify_moment w approved).1
              ∙ sym at
          | inr old ↦ s.keyed j e old
        ]

        alone : OneOpen after
        alone i j x y hi hj ox oy r k = elim (origin_of i x hi) [
          | inl (_, it) ↦ absurd (settled (ap (λ z. z.status) it ∙ ox))
          | inr wi ↦ elim (origin_of j y hj) [
            | inl (_, it) ↦ absurd (settled (ap (λ z. z.status) it ∙ oy))
            | inr wj ↦ s.one_open i j x y wi wj ox oy r k
          ]
        ]

-- One proposal that returned, or one approval, which may also have raised. A proposal that raised is
-- no step.
pub data Step (c : Controller) : World → World → Type 0 where
  propose_step :
      {w v : World} (request : ProposalRequest) (moment : Moment) (d : Decision)
      → propose c request moment w ≡ (ok d, v)
      → Step c w v
  approve_step :
      {w v : World} (request : ApprovalRequest) (moment verify_moment : Moment)
      → (approve c request moment verify_moment w).1 ≡ v
      → Step c w v

pub data Reach (c : Controller) (w : World) : World → Type 0 where
  here : Reach c w w
  next : {u v : World} → Reach c w u → Step c u v → Reach c w v

Step-IsSound : {c : Controller} {w v : World} → Step c w v → IsSound w → IsSound v
Step-IsSound {c} {w} (propose_step request moment d h) s = propose-IsSound c request moment w h s
Step-IsSound {c} {w} (approve_step request moment verify_moment h) s =
    subst IsSound h (approve-IsSound c request moment verify_moment w s)

-- However many proposals that return and approvals that return or raise follow one another, the records
-- stay under their own ids, and no two open proposals, both live or both of one recording, name the same
-- call, if that was so at first. Nothing is said of a history in which a proposal raises.
pub Reach-IsSound : {c : Controller} {w v : World} → Reach c w v → IsSound w → IsSound v
Reach-IsSound here s = s
Reach-IsSound (next r st) s = Step-IsSound st (Reach-IsSound r s)
