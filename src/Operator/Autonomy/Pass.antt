-- ===== src/Operator/Autonomy/Pass.antt =====
-- What an autonomous pass may do: a chain of executions, each licensed as the receipts then stand.
use cloudfall.Base.{
  String, Bool, true, false, Option, none, some, List, [], ◌∷◌, ◌≡◌, ◌⊎◌, inl, inr, refl, sym, ◌∙◌,
  ap, string_eq,
}
use cloudfall.Base.Dict.{Dict, lookup}
use cloudfall.Base.Results.{ok, err}
use cloudfall.Base.Effects.{chain-post, pure, ◌>>=◌}
use cloudfall.Operator.Records.{ProposalStatus, proposed, ApprovalRecord, OperatorProposal}
use cloudfall.Operator.World.{Site, World, Checked}
use cloudfall.Operator.Store.{list_all}
use cloudfall.Operator.Approve.{ApproveOptions, execute_and_verify}
use cloudfall.Operator.Autonomy.{
  OperatorPolicy, Instant, Reason, autonomy_decision, Ruling, pass_over, withhold, license,
  policy_for, rule_under, rule_on, Log, obey, each_open, autonomous_pass,
}
use cloudfall.Operator.Autonomy.License.{Licensed}
use cloudfall.Operator.Autonomy.Laws.{autonomy_decision_iff}

module _ (site : Site) (now : Instant) where
  module _ (policies : Dict String OperatorPolicy) (environments : Dict String String)
      (options : ApproveOptions) where
    rule_under-license :
        (p : OperatorProposal) (policy other : OperatorPolicy) (w : World)
        (r : Checked (Bool × Reason))
        → autonomy_decision site p policy now w ≡ r
        → rule_under site policies environments options now p policy w ≡ ok (license other)
        → (policy ≡ other)
          × ((reason : Reason) × (autonomy_decision site p policy now w ≡ ok (true, reason)))
    unfolding rule_under
    rule_under-license p policy other w (err e) d h =
        let k : ◌≡◌ {A = Checked Ruling} (err e) (ok (license other)) = rw (rule_under, d) at h in
        cc
    rule_under-license p policy other w (ok (true, reason)) d h =
        let k : ◌≡◌ {A = Checked Ruling} (ok (license policy)) (ok (license other)) =
          rw (rule_under, d) at h in
        (cc, (reason, d))
    rule_under-license p policy other w (ok (false, reason)) d h =
        let k : ◌≡◌ {A = Checked Ruling} (ok (withhold reason)) (ok (license other)) =
          rw (rule_under, d) at h in
        cc

    rule_on-license :
        (p : OperatorProposal) (w : World) {policy : OperatorPolicy}
        → rule_on site policies environments options now p w ≡ ok (license policy)
        → (p.status ≡ proposed)
          × (policy_for site policies environments options now p.operation_server ≡ some policy)
          × ((reason : Reason) × (autonomy_decision site p policy now w ≡ ok (true, reason)))
    unfolding rule_on
    rule_on-license p w {policy} h =
        go p.status refl (policy_for site policies environments options now p.operation_server) refl
      where
        go :
            (status : ProposalStatus)
            → p.status ≡ status
            → (found : Option OperatorPolicy)
            → policy_for site policies environments options now p.operation_server ≡ found
            → (p.status ≡ proposed)
              × (policy_for site policies environments options now p.operation_server ≡ some policy)
              × ((reason : Reason) × (autonomy_decision site p policy now w ≡ ok (true, reason)))
        go proposed e none f =
            let k : ◌≡◌ {A = Checked Ruling} (ok (withhold Reason.no_policy))
                (ok (license policy)) =
              rw (rule_on, e, f) at h in
            cc
        go proposed e (some q) f =
            let (same, (reason, d)) =
              rule_under-license p q policy w (autonomy_decision site p q now w) refl
                (rw (rule_on, e, f) at h) in
            (
              e,
              f ∙ ap some same,
              (reason, ap (λ z. autonomy_decision site p z now w) (sym same) ∙ d),
            )
        go status e found f =
            let k : ◌≡◌ {A = Checked Ruling} (ok pass_over) (ok (license policy)) =
              rw (rule_on, e) at h in
            cc

    abbrev pub by_policy : OperatorPolicy → ApprovalRecord
    by_policy policy = record { mode = "autonomous"; policy = some policy.resource_id; via = none }

    -- The world moves only by executions of proposals of the list that it has as open, in the order of
    -- the list and each at most once, each under the policy of its server's environment, which licenses
    -- it as the receipts stand when it begins.
    pub data Supervised : List OperatorProposal → World → World → Type 0 where
      rest : {items : List OperatorProposal} {w : World} → Supervised items w w
      skip :
          {items : List OperatorProposal} {w v : World} (p : OperatorProposal)
          → Supervised items w v
          → Supervised (p ∷ items) w v
      act :
          {items : List OperatorProposal} {w v : World} (p : OperatorProposal)
          (environment : String) (policy : OperatorPolicy)
          → p.status ≡ proposed
          → lookup p.operation_server environments ≡ some environment
          → lookup environment policies ≡ some policy
          → Licensed site now p policy w
          → Supervised items (execute_and_verify site p (by_policy policy) options w).1 v
          → Supervised (p ∷ items) w v

    policy_for-found :
        (server : String) {policy : OperatorPolicy}
        → policy_for site policies environments options now server ≡ some policy
        → (environment : String) × (lookup server environments ≡ some environment)
          × (lookup environment policies ≡ some policy)
    unfolding policy_for
    policy_for-found server {policy} h = go (lookup server environments) refl
      where
        go :
            (found : Option String)
            → lookup server environments ≡ found
            → (environment : String) × (lookup server environments ≡ some environment)
              × (lookup environment policies ≡ some policy)
        go none e =
            let k : ◌≡◌ {A = Option OperatorPolicy} none (some policy) = rw (policy_for, e) at h in
            cc
        go (some environment) e = (environment, e, rw (policy_for, e) at h)

    each_open-Supervised :
        (items : List OperatorProposal) (w : World)
        → Supervised items w (each_open site policies environments options now items w).1
    unfolding each_open obey
    each_open-Supervised [] w = rest
    each_open-Supervised (p ∷ items) w =
        let next = λ (v : World). each_open-Supervised items v in
        chain-post (λ r. Supervised (p ∷ items) w r.1)
          (λ v. (rule_on site policies environments options now p v, v))
          (obey site policies environments options now p
            (each_open site policies environments options now items))
          w (λ e h. rest) (λ ruling h. obeyed next ruling h)
      where
        obeyed :
            ((v : World)
              → Supervised items v (each_open site policies environments options now items v).1)
            → (ruling : Ruling) → rule_on site policies environments options now p w ≡ ok ruling
            → Supervised
                (p ∷ items)
                w
                (obey site policies environments options now p
                  (each_open site policies environments options now items)
                  ruling
                  w).1
        obeyed next pass_over h = skip p (next w)
        obeyed next (withhold reason) h =
            chain-post (λ r. Supervised (p ∷ items) w r.1)
              (each_open site policies environments options now items)
              (λ log. pure {A = Log} (log.0, (p.resource_id, reason) ∷ log.1)) w
              (λ e _. skip p (next w)) (λ log _. skip p (next w))
        obeyed next (license policy) h =
            let (pending, found, decided) = rule_on-license p w h in
            let (environment, of_server, of_environment) =
              policy_for-found p.operation_server found in
            let licensed = (autonomy_decision_iff site now p policy w).0 decided in
            let after = (execute_and_verify site p (by_policy policy) options w).1 in
            chain-post (λ r. Supervised (p ∷ items) w r.1)
              (execute_and_verify site p (by_policy policy) options)
              (λ result. each_open site policies environments options now items >>= λ log.
                pure {A = Log} ((result.resource_id, result.status) ∷ log.0, log.1))
              w (λ e _. act p environment policy pending of_server of_environment licensed rest)
              (λ result _. act p environment policy pending of_server of_environment licensed (
                chain-post (λ r. Supervised items after r.1)
                  (each_open site policies environments options now items)
                  (λ log. pure {A = Log} ((result.resource_id, result.status) ∷ log.0, log.1)) after
                  (λ e _. next after) (λ log _. next after)))

    -- An autonomous pass whose store cannot be listed does nothing. Any other moves the world only by
    -- executions of proposals that the list has as open, in its order and each at most once, each under
    -- the policy that is declared for its server's environment and licenses it as the receipts stand when
    -- it begins, and with an approval that names that policy.
    pub autonomous_pass-Supervised :
        (w : World)
        → ((autonomous_pass site policies environments options now w).1 ≡ w)
          ⊎ ((all : List OperatorProposal) × (list_all site w ≡ ok all)
              × Supervised all w (autonomous_pass site policies environments options now w).1)
    unfolding autonomous_pass
    autonomous_pass-Supervised w =
        chain-post
          (λ r.
            (r.1 ≡ w)
            ⊎ ((all : List OperatorProposal) × (list_all site w ≡ ok all) × Supervised all w r.1))
          (λ v. (list_all site v, v)) (each_open site policies environments options now) w
          (λ e _. inl refl) (λ all listed. inr (all, listed, each_open-Supervised all w))
