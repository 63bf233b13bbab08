-- ===== src/Operator/Autonomy/Laws.antt =====
-- When the operator may act on its own.
use mathlib.Core.Path.{subst}
use cloudfall.Base.{select, length, ◌≤◌, ◌<◌, Bool, true, false, Option, none, some, List}
use cloudfall.Base.{◌≡◌, ◌↔◌, refl, sym, ◌∙◌, ap, arith, string_eq}
use cloudfall.Base.Results.{ok, err}
use cloudfall.Operator.Records.{verified, kind_value, OperatorProposal}
use cloudfall.Operator.World.{Site, World, Checked}
use cloudfall.Operator.Store.{list_all}
use cloudfall.Operator.Autonomy.License.{
  select-Sifted, Sifted-unique, IsPast, IsRecent, Licensed, in_quiet_hours_iff, is_verified_iff,
  counts_as_past, counts_as_past_iff, is_recent_iff, grant_for_iff, last_failed_iff,
}
use cloudfall.Operator.Autonomy.{
  is_verified, is_recent, AutonomyGrant, OperatorPolicy, Instant, grant_for, Reason, history_of,
  verified_runs, last_failed, in_quiet_hours, recent_runs, within_rate, decide_on,
  autonomy_decision,
}

module _ (site : Site) (now : Instant) where
  -- What the tests of `autonomy_decision` come to.
  record Cleared (p : OperatorProposal) (policy : OperatorPolicy) (w : World) : Type 0 where
    grant : AutonomyGrant
    all : List OperatorProposal
    granted : grant_for policy (kind_value p.operation_kind) ≡ some grant
    listed : list_all site w ≡ ok all
    earned : grant.required_verified_runs ≤ verified_runs (history_of p all)
    trusted : last_failed (history_of p all) ≡ false
    awake : in_quiet_hours policy now.minute ≡ false
    below_limit : recent_runs site now all < policy.max_autonomous_per_hour

  decide_on-granted :
      (p : OperatorProposal) (policy : OperatorPolicy) (grant : AutonomyGrant)
      (all : List OperatorProposal) {reason : Reason}
      → decide_on site p policy now grant all ≡ (true, reason)
      → (grant.required_verified_runs ≤ verified_runs (history_of p all))
        × (last_failed (history_of p all) ≡ false)
        × (in_quiet_hours policy now.minute ≡ false)
        × (recent_runs site now all < policy.max_autonomous_per_hour)
  unfolding decide_on within_rate
  decide_on-granted p policy grant all h = ground arith

  decide_on_of_facts :
      (p : OperatorProposal) (policy : OperatorPolicy) (grant : AutonomyGrant)
      (all : List OperatorProposal)
      → grant.required_verified_runs ≤ verified_runs (history_of p all)
      → last_failed (history_of p all) ≡ false
      → in_quiet_hours policy now.minute ≡ false
      → recent_runs site now all < policy.max_autonomous_per_hour
      → decide_on site p policy now grant all
        ≡ (true, Reason.licensed (verified_runs (history_of p all)))
  unfolding decide_on within_rate
  decide_on_of_facts p policy grant all earned trusted awake below = ground arith

  autonomy_decision-Cleared :
      (p : OperatorProposal) (policy : OperatorPolicy) (w : World)
      → ((reason : Reason) × (autonomy_decision site p policy now w ≡ ok (true, reason)))
        ↔ Cleared p policy w
  unfolding autonomy_decision
  autonomy_decision-Cleared p policy w = (forward, backward)
    where
      decided :
          (found : Option AutonomyGrant) (read : Checked (List OperatorProposal))
          → grant_for policy (kind_value p.operation_kind) ≡ found
          → list_all site w ≡ read
          → (reason : Reason) → autonomy_decision site p policy now w ≡ ok (true, reason)
          → Cleared p policy w
      decided none read g l reason h =
          let k : ◌≡◌ {A = Checked (Bool × Reason)} (ok (false, Reason.not_granted))
              (ok (true, reason)) =
            rw (autonomy_decision, g) at h in
          cc
      decided (some grant) (err e) g l reason h =
          let k : ◌≡◌ {A = Checked (Bool × Reason)} (err e) (ok (true, reason)) =
            rw (autonomy_decision, g, l) at h in
          cc
      decided (some grant) (ok all) g l reason h =
          let k : ◌≡◌ {A = Checked (Bool × Reason)} (ok (decide_on site p policy now grant all))
              (ok (true, reason)) =
            rw (autonomy_decision, g, l) at h in
          let d : decide_on site p policy now grant all ≡ (true, reason) = cc in
          let (earned, trusted, awake, below) = decide_on-granted p policy grant all d in
          record {
            grant = grant;
            all = all;
            granted = g;
            listed = l;
            earned = earned;
            trusted = trusted;
            awake = awake;
            below_limit = below;
          }

      forward :
          (reason : Reason) × (autonomy_decision site p policy now w ≡ ok (true, reason))
          → Cleared p policy w
      forward (reason, h) =
          decided (grant_for policy (kind_value p.operation_kind)) (list_all site w) refl refl
            reason h

      backward :
          Cleared p policy w
          → (reason : Reason) × (autonomy_decision site p policy now w ≡ ok (true, reason))
      backward l = (
        Reason.licensed (verified_runs (history_of p l.all)),
        rw (autonomy_decision, l.granted, l.listed)
            (ap ok
              (decide_on_of_facts p policy l.grant l.all l.earned l.trusted l.awake l.below_limit)),
      )

  Cleared-Licensed :
      (p : OperatorProposal) (policy : OperatorPolicy) (w : World)
      → Cleared p policy w
      → Licensed site now p policy w
  Cleared-Licensed p policy w c =
      let past = select-Sifted (IsPast p) (counts_as_past p) (counts_as_past_iff p) c.all in
      record {
        grant = c.grant;
        all = c.all;
        past = select (counts_as_past p) c.all;
        successes = select (λ r. is_verified r.status) (select (counts_as_past p) c.all);
        recent = select (is_recent site now) c.all;
        granted = (grant_for_iff policy (kind_value p.operation_kind) c.grant).0 c.granted;
        listed = c.listed;
        history = past;
        runs =
            select-Sifted (λ r. r.status ≡ verified) (λ r. is_verified r.status) is_verified_iff
              (select (counts_as_past p) c.all);
        rate =
            select-Sifted (IsRecent site now) (is_recent site now) (is_recent_iff site now) c.all;
        earned = unfold history_of in c.earned;
        trusted =
            (last_failed_iff p c.all (select (counts_as_past p) c.all) past).0
              (unfold history_of in c.trusted);
        awake = (in_quiet_hours_iff policy now.minute).0 c.awake;
        below_limit = c.below_limit;
      }

  Licensed-Cleared :
      (p : OperatorProposal) (policy : OperatorPolicy) (w : World)
      → Licensed site now p policy w
      → Cleared p policy w
  Licensed-Cleared p policy w l =
      let past : l.past ≡ history_of p l.all =
        unfold history_of in
        Sifted-unique (IsPast p) (counts_as_past p) (counts_as_past_iff p) l.all l.past l.history in
      let runs : l.successes ≡ select (λ r. is_verified r.status) l.past =
        Sifted-unique (λ r. r.status ≡ verified) (λ r. is_verified r.status) is_verified_iff l.past
          l.successes l.runs in
      let rate : l.recent ≡ select (is_recent site now) l.all =
        Sifted-unique (IsRecent site now) (is_recent site now) (is_recent_iff site now) l.all
          l.recent l.rate in
      record {
        grant = l.grant;
        all = l.all;
        granted = (grant_for_iff policy (kind_value p.operation_kind) l.grant).1 l.granted;
        listed = l.listed;
        earned =
            subst (λ n. l.grant.required_verified_runs ≤ n) (ap length runs ∙ ap verified_runs past)
              l.earned;
        trusted =
            ap last_failed (sym past) ∙ (last_failed_iff p l.all l.past l.history).1 l.trusted;
        awake = (in_quiet_hours_iff policy now.minute).1 l.awake;
        below_limit =
            subst (λ n. n < policy.max_autonomous_per_hour) (ap length rate) l.below_limit;
      }

  -- The policy licenses an execution of a proposal now exactly if its first grant for the kind of the
  -- operation asks for no more verified runs than there are among the other receipts of that kind that
  -- ended, the last of these is verified, where there is one, the minute is outside the quiet hours, and
  -- fewer executions than the limit were autonomous and lie less than an hour back.
  pub autonomy_decision_iff :
      (p : OperatorProposal) (policy : OperatorPolicy) (w : World)
      → ((reason : Reason) × (autonomy_decision site p policy now w ≡ ok (true, reason)))
        ↔ Licensed site now p policy w
  autonomy_decision_iff p policy w =
      let (to, from) = autonomy_decision-Cleared p policy w in
      (λ h. Cleared-Licensed p policy w (to h), λ l. from (Licensed-Cleared p policy w l))
