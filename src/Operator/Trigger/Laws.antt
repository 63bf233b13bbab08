-- ===== src/Operator/Trigger/Laws.antt =====
-- Passes of the operator keep the receipts sound.
use cloudfall.Base.{
  String, Bool, true, false, some, List, [], ◌∷◌, ◌++◌, contains, map, select, Member,
}
use cloudfall.Base.{inl, inr, ◌⊎◌, ◌≡◌, ◌≢◌, refl, sym, ◌∙◌, ap, arith, string_eq, Bool-cases}
use mathlib.Core.Path.{subst}
use cloudfall.Base.Dict.{lookup, lookup-put}
use cloudfall.Base.Results.{ok, >>=-eq-ok}
use cloudfall.Base.Effects.{◌>>=◌, resume, pure, lift, chain-post}
use cloudfall.Operator.Records.{proposed, is_blocking, OperatorAlert, OperatorProposal}
use cloudfall.Operator.World.{fetch_alerts, Site, World, Act}
use cloudfall.Operator.Store.{list_all, blocking_fingerprints, open_count}
use cloudfall.Operator.Store.Laws.{stored, save-post, list_all-Member}
use cloudfall.Operator.Sound.{IsSound}
use cloudfall.Operator.Trigger.{
  DeclaredService, SkippedAlert, RunReport, Answer, take, proposal, skip, propose_for_alert,
  call_feed, consider, report, look, run_once,
}

-- Every fingerprint that a receipt blocks is in the list.
abbrev pub Covers : List String → World → Type 0
Covers blocking w =
    (j : String) (p : OperatorProposal)
    → lookup j w.proposals ≡ some p
    → is_blocking p.status ≡ true
    → contains blocking p.fingerprint ≡ true

contains-select :
    (p : OperatorProposal) (all : List OperatorProposal)
    → Member p all
    → is_blocking p.status ≡ true
    → contains (map (λ q. q.fingerprint) (select (λ q. is_blocking q.status) all)) p.fingerprint
      ≡ true
contains-select p [] m b = elim m [ ]
contains-select p (q ∷ all) (inl e) b = rw (← e, b) (ground arith)
contains-select p (q ∷ all) (inr m) b = ground (arith, contains-select p all m b)

pub blocking_fingerprints-Covers :
    (site : Site) (w : World) {blocking : List String}
    → blocking_fingerprints site w ≡ ok blocking
    → Covers blocking w
unfolding blocking_fingerprints
blocking_fingerprints-Covers site w h j p there b =
    let (all, listed, same) =
      >>=-eq-ok (list_all site w)
        (λ all. ok (map (λ q. q.fingerprint) (select (λ q. is_blocking q.status) all))) h in
    ground (arith, contains-select p all (list_all-Member site w all j p listed there) b)

propose_for_alert-eq :
    (alert : OperatorAlert) (services : List DeclaredService) (now : String) {p : OperatorProposal}
    → propose_for_alert alert services now ≡ ok (proposal p)
    → (p.status ≡ proposed) × (p.fingerprint ≡ alert.fingerprint)
unfolding propose_for_alert
propose_for_alert-eq alert services now h = ground arith

-- A new open proposal of a fingerprint that nothing blocks.
module _ (p : OperatorProposal) (w : World) (blocking : List String) (s : IsSound w)
    (covers : Covers blocking w) (pending : p.status ≡ proposed)
    (unblocked : contains blocking p.fingerprint ≡ false) where
  origin :
      (j : String) (x : OperatorProposal)
      → lookup j (stored p w).proposals ≡ some x
      → ((j ≡ p.resource_id) × (p ≡ x)) ⊎ (lookup j w.proposals ≡ some x)
  origin j x h = ground (arith, lookup-put j p.resource_id p w.proposals)

  apart :
      (j : String) (x : OperatorProposal)
      → lookup j w.proposals ≡ some x
      → is_blocking x.status ≡ true
      → p.fingerprint ≢ x.fingerprint
  apart j x there b e =
      let blocked : contains blocking p.fingerprint ≡ true =
        ap (contains blocking) e ∙ covers j x there b in
      let t : ◌≡◌ {A = Bool} false true = sym unblocked ∙ blocked in cc

  pub saved-IsSound : IsSound (stored p w)
  saved-IsSound = record {
    keyed = λ j x h. elim (origin j x h) [
      | inl (at, it) ↦ ap (λ z. z.resource_id) (sym it) ∙ sym at
      | inr old ↦ s.keyed j x old
    ];
    licensed = λ j x h n. elim (origin j x h) [
      | inl (at, it) ↦ absurd (n (ap (λ z. z.status) (sym it) ∙ pending))
      | inr old ↦ s.licensed j x old n
    ];
    single = λ i j x y hi hj bx by e. elim (origin i x hi) [
      | inl (pi, px) ↦ elim (origin j y hj) [
        | inl (pj, py) ↦ pi ∙ sym pj
        | inr wj ↦ absurd (apart j y wj by (ap (λ z. z.fingerprint) px ∙ e))
      ]
      | inr wi ↦ elim (origin j y hj) [
        | inl (pj, py) ↦ absurd (apart i x wi bx (ap (λ z. z.fingerprint) py ∙ sym e))
        | inr wj ↦ s.single i j x y wi wj bx by e
      ]
    ];
  }

  pub saved-Covers : Covers (p.fingerprint ∷ blocking) (stored p w)
  saved-Covers j x h b = elim (origin j x h) [
    | inl (at, it) ↦ let e = ap (λ z. z.fingerprint) it in ground arith
    | inr old ↦ ground (arith, covers j x old b)
  ]

module _ (site : Site) (services : List DeclaredService) (now : String) where
  -- The rest of the loop keeps the receipts sound if both ways to go on do.
  take-IsSound :
      (later covered : Act (List String × List SkippedAlert)) (a : Answer) (w : World)
      → IsSound w
      → IsSound (later w).1
      → ((p : OperatorProposal) → a ≡ proposal p → IsSound (covered (stored p w)).1)
      → IsSound (take site services now later covered a w).1
  unfolding take
  take-IsSound later covered (skip x) w s next saved =
      chain-post (λ r. IsSound r.1) later (λ r. pure (r.0, x ∷ r.1)) w (λ e h. next) (λ r h. next)
  take-IsSound later covered (proposal p) w s next saved =
      save-post site
        (λ r.
          IsSound
            (resume
              (λ _. covered >>= λ r.
                pure {A = List String × List SkippedAlert} (p.resource_id ∷ r.0, r.1))
              r.0 r.1).1)
        p w
        (λ _.
          chain-post (λ r. IsSound r.1) covered (λ r. pure (p.resource_id ∷ r.0, r.1)) (stored p w)
            (λ e h. saved p refl) (λ r h. saved p refl))
        (λ e. s)

  consider-IsSound :
      (blocking : List String) (alerts : List OperatorAlert) (w : World)
      → IsSound w
      → Covers blocking w
      → IsSound (consider site services now blocking alerts w).1
  unfolding consider
  consider-IsSound blocking [] w s covers = s
  consider-IsSound blocking (alert ∷ rest) w s covers =
      let later = consider site services now blocking rest in
      let covered = consider site services now (alert.fingerprint ∷ blocking) rest in
      let next = consider-IsSound blocking rest w s covers in
      elim (Bool-cases (contains blocking alert.fingerprint)) [
        | inl blocked ↦ rw (consider, blocked) next
        | inr unblocked ↦
            rw (consider, unblocked)
              (chain-post (λ r. IsSound r.1) (lift (propose_for_alert alert services now))
                (take site services now later covered) w (λ e h. s)
                (λ a h. take-IsSound later covered a w s next (λ p made.
                  let (pending, named) = propose_for_alert-eq alert services now (h ∙ ap ok made) in
                  let free : contains blocking p.fingerprint ≡ false =
                    ap (contains blocking) named ∙ unblocked in
                  consider-IsSound (alert.fingerprint ∷ blocking) rest (stored p w)
                    (saved-IsSound p w blocking s covers pending free)
                    (subst (λ f. Covers (f ∷ blocking) (stored p w)) named
                      (saved-Covers p w blocking s covers pending free)))))
      ]

  report-IsSound :
      (r : List String × List SkippedAlert) (w : World)
      → IsSound w
      → IsSound (report site services now r w).1
  unfolding report
  report-IsSound r w s =
      chain-post (λ r. IsSound r.1) (λ v. (open_count site v, v))
        (λ n. pure {A = RunReport} (record { proposed = r.0; skipped = r.1; open_proposals = n })) w
        (λ e h. s) (λ n h. s)

  look-IsSound :
      (blocking : List String) (w : World)
      → IsSound w
      → Covers blocking w
      → IsSound (look site services now blocking w).1
  unfolding look
  look-IsSound blocking w s covers =
      let asked : World = record w { events = w.events ++ (fetch_alerts ∷ []) } in
      let still : IsSound asked = record {
        keyed = s.keyed;
        licensed = s.licensed;
        single = s.single;
      } in
      chain-post (λ r. IsSound r.1) (call_feed site services now)
        (λ alerts. consider site services now blocking alerts >>= report site services now) w
        (λ e _. still)
        (λ alerts _.
          let kept = consider-IsSound blocking alerts asked still covers in
          chain-post (λ r. IsSound r.1) (consider site services now blocking alerts)
            (report site services now) asked (λ e _. kept) (λ r _. report-IsSound r _ kept))

  -- A pass over the alerts keeps the receipts sound, whatever comes of it.
  pub run_once-IsSound : (w : World) → IsSound w → IsSound (run_once site services now w).1
  unfolding run_once
  run_once-IsSound w s =
      chain-post (λ r. IsSound r.1) (λ v. (blocking_fingerprints site v, v))
        (look site services now) w (λ e _. s)
        (λ blocking h. look-IsSound blocking w s (blocking_fingerprints-Covers site w h))
