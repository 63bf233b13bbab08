-- ===== src/Operator/Autonomy.antt =====
-- `autonomy_decision` and `autonomous_pass` of operator.py, with the policies of inventory.py that
-- they consult. Times of day are minutes since midnight (`DayTime.minutes`), moments are seconds.
pub mod License
pub mod Laws
pub mod Pass
use cloudfall.Base.{
  ℕ, ◌+◌, String, Bool, true, false, ◌&&◌, ◌||◌, not, Option, none, some, List, [], ◌∷◌, first,
  last, select, length,
}
use cloudfall.Base.{◌==◌, string_eq, leb, ltb, if◌then◌else◌}
use cloudfall.Base.Dict.{Dict, lookup, put}
use cloudfall.Base.Results
use cloudfall.Base.Results.{ok, err}
use cloudfall.Base.Effects.{◌>>=◌, pure}
use cloudfall.Operator.Records.{
  ProposalStatus, proposed, executed, verified, failed, OperationKind, converge_services,
  converge_baseline, kind_value, OperatorProposal,
}
use cloudfall.Operator.World.{Site, World, Checked, Act}
use cloudfall.Operator.Store.{is_proposed, list_all}
use cloudfall.Operator.Approve.{ApproveOptions, execute_and_verify}

pub record AutonomyGrant : Type 0 where
  pub operation_kind : String
  pub required_verified_runs : ℕ

pub record QuietHours : Type 0 where
  pub start : ℕ
  pub end : ℕ

pub record OperatorPolicy : Type 0 where
  pub resource_id : String
  pub environment : String
  pub grants : List AutonomyGrant
  pub max_autonomous_per_hour : ℕ
  pub quiet_hours : Option QuietHours

-- `now`, by its minute of the day and its timestamp
pub record Instant : Type 0 where
  pub minute : ℕ
  pub seconds : ℕ

-- `QuietHours.contains`
unfoldable pub covers_minute : QuietHours → ℕ → Bool
covers_minute hours minute =
    if leb hours.start hours.end
    then leb hours.start minute && ltb minute hours.end
    else leb hours.start minute || ltb minute hours.end

-- `OperatorPolicyInventory.grant_for`
unfoldable pub grant_for : OperatorPolicy → String → Option AutonomyGrant
grant_for policy kind = first (λ grant. grant.operation_kind == kind) policy.grants

-- What an `AutonomyDecision` says.
pub data Reason : Type 0 where
  not_granted : Reason
  insufficient_history : ℕ → ℕ → Reason
  recently_failed : Reason
  quiet_hours_in_effect : Reason
  rate_limit_reached : ℕ → ℕ → Reason
  licensed : ℕ → Reason
  no_policy : Reason

abbrev pub same_kind : OperationKind → OperationKind → Bool
same_kind converge_services converge_services = true
same_kind converge_services converge_baseline = false
same_kind converge_baseline converge_services = false
same_kind converge_baseline converge_baseline = true

abbrev pub is_verified : ProposalStatus → Bool
is_verified verified = true
is_verified proposed = false
is_verified executed = false
is_verified failed = false

abbrev pub is_failed : ProposalStatus → Bool
is_failed failed = true
is_failed proposed = false
is_failed executed = false
is_failed verified = false

-- the receipts of the same kind that have ended, other than the proposal itself
unfoldable pub history_of : OperatorProposal → List OperatorProposal → List OperatorProposal
history_of p = select (λ r.
    same_kind r.operation_kind p.operation_kind
    && not (r.resource_id == p.resource_id)
    && (is_verified r.status || is_failed r.status))

abbrev pub verified_runs : List OperatorProposal → ℕ
verified_runs history = length (select (λ r. is_verified r.status) history)

-- `history and history[-1].status is ProposalStatus.FAILED`
abbrev pub last_failed : List OperatorProposal → Bool
last_failed history = elim (last history) [ none ↦ false | some r ↦ is_failed r.status ]

abbrev pub in_quiet_hours : OperatorPolicy → ℕ → Bool
in_quiet_hours policy minute = elim policy.quiet_hours [
  | none ↦ false
  | some h ↦ covers_minute h minute
]

-- The verdict on one listed proposal: withheld for a reason, or licensed by a policy.
pub data Ruling : Type 0 where
  pass_over : Ruling
  withhold : Reason → Ruling
  license : OperatorPolicy → Ruling

-- the two lists of an `AutonomyReport`
abbrev pub Log : Type 0
Log = List (String × ProposalStatus) × List (String × Reason)

module _ (site : Site) where
  -- whether a receipt is of an autonomous execution in the hour before `now`
  abbrev pub is_recent : Instant → OperatorProposal → Bool
  is_recent now r = elim r.approval [
    | none ↦ false
    | some a ↦ elim r.outcome [
      | none ↦ false
      | some o ↦ a.mode == "autonomous" && ltb now.seconds (site.timestamp o.executed_at + 3600)
    ]
  ]

  abbrev pub recent_runs : Instant → List OperatorProposal → ℕ
  recent_runs now all = length (select (is_recent now) all)

  -- `autonomy_decision` from the rate limit on
  unfoldable pub within_rate : OperatorPolicy → Instant → ℕ → List OperatorProposal → Bool × Reason
  within_rate policy now runs all =
      if leb policy.max_autonomous_per_hour (recent_runs now all)
      then (false, rate_limit_reached (recent_runs now all) policy.max_autonomous_per_hour)
      else (true, licensed runs)

  -- `autonomy_decision` once the grant is found
  unfoldable pub decide_on :
      OperatorProposal
      → OperatorPolicy
      → Instant
      → AutonomyGrant
      → List OperatorProposal
      → Bool × Reason
  unfolding history_of covers_minute within_rate
  decide_on p policy now grant all =
      let history = history_of p all in
      if ltb (verified_runs history) grant.required_verified_runs
      then (false, insufficient_history (verified_runs history) grant.required_verified_runs)
      else if last_failed history
      then (false, recently_failed)
      else if in_quiet_hours policy now.minute
      then (false, quiet_hours_in_effect)
      else within_rate policy now (verified_runs history) all

  -- `autonomy_decision`. The store is read twice, and nothing is written between.
  unfoldable pub autonomy_decision :
      OperatorProposal → OperatorPolicy → Instant → World → Checked (Bool × Reason)
  unfolding grant_for list_all decide_on
  autonomy_decision p policy now w = elim (grant_for policy (kind_value p.operation_kind)) [
    | none ↦ ok (false, not_granted)
    | some grant ↦ elim (list_all site w) [
      | err e ↦ err e
      | ok all ↦ ok (decide_on p policy now grant all)
    ]
  ]

  module _ (policies : Dict String OperatorPolicy) (environments : Dict String String)
      (options : ApproveOptions) (now : Instant) where
    -- `policies_by_environment.get(environments_by_server.get(server))`
    unfoldable pub policy_for : String → Option OperatorPolicy
    unfolding lookup
    policy_for server = elim (lookup server environments) [
      | none ↦ none
      | some environment ↦ lookup environment policies
    ]

    unfoldable pub rule_under : OperatorProposal → OperatorPolicy → World → Checked Ruling
    unfolding autonomy_decision
    rule_under p policy w = elim (autonomy_decision p policy now w) [
      | err e ↦ err e
      | ok (granted, reason) ↦ ok (if granted then license policy else withhold reason)
    ]

    unfoldable pub rule_on : OperatorProposal → World → Checked Ruling
    unfolding policy_for rule_under
    rule_on p w =
        if is_proposed p.status
        then elim (policy_for p.operation_server) [
          | none ↦ ok (withhold no_policy)
          | some policy ↦ rule_under p policy w
        ]
        else ok pass_over

    -- what one ruling does, before `later`
    unfoldable pub obey : OperatorProposal → Act Log → Ruling → Act Log
    unfolding execute_and_verify
    obey p later pass_over = later
    obey p later (withhold reason) = do log ← later; pure (log.0, (p.resource_id, reason) ∷ log.1)
    obey p later (license policy) = do
      result ←
          execute_and_verify site p
            (record { mode = "autonomous"; policy = some policy.resource_id; via = none }) options
      log ← later
      pure ((result.resource_id, result.status) ∷ log.0, log.1)

    -- the loop of `autonomous_pass`
    unfoldable pub each_open : List OperatorProposal → Act Log
    unfolding rule_on obey
    each_open [] = pure ([], [])
    each_open (p ∷ rest) =
        let later = each_open rest in do ruling ← (λ w. (rule_on p w, w)); obey p later ruling

    -- `autonomous_pass`
    unfoldable pub autonomous_pass : Act Log
    unfolding list_all each_open
    autonomous_pass = do all ← (λ w. (list_all site w, w)); each_open all
