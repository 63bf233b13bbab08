-- ===== src/Operator/Trigger.antt =====
-- `propose_for_alert` and `run_once` of operator.py.
pub mod Laws
use Prim.Native.Char.{Char, code}
use Prim.Native.String.{count}
use cloudfall.Base.{
  ℕ, zero, suc, ◌-◌, String, ◌<>◌, Bool, true, false, ◌&&◌, ◌||◌, Option, none, some, List, [], ◌∷◌,
  ◌++◌, first, contains,
}
use cloudfall.Base.{◌==◌, string_eq, nat_eq, leb, if◌then◌else◌}
use cloudfall.Base.Results.{ok, err}
use cloudfall.Base.Effects.{◌>>=◌, ◌>>◌, pure, lift}
use cloudfall.Ids.{resource_id}
use cloudfall.Operator.Records.{
  proposed, TriggerKind, converge_services, playbook_of, OperatorAlert, alert_firing,
  OperatorProposal,
}
use cloudfall.Operator.World.{
  OperatorError, id_error, fault, fetch_alerts, Site, World, Checked, Act,
}
use cloudfall.Operator.Store.{save, blocking_fingerprints, open_count}
use cloudfall.Operator.Approve.{after_prefix}

-- what `inventory.services` says of a service
pub record DeclaredService : Type 0 where
  pub resource_id : String
  pub server_id : String

-- Why an alert is not acted on.
pub data SkipReason : Type 0 where
  undeclared : String → String → SkipReason

pub record SkippedAlert : Type 0 where
  pub name : String
  pub reason : SkipReason

pub record RunReport : Type 0 where
  pub proposed : List String
  pub skipped : List SkippedAlert
  pub open_proposals : ℕ

-- `text.replace(old, "")`; the number is what is left of an occurrence.
unfoldable pub remove_text : String → ℕ → String → String
unfolding after_prefix
remove_text old skip String.[] = String.[]
remove_text old (suc skip) (String.◌∷◌ c s) = remove_text old skip s
remove_text old zero (String.◌∷◌ c s) =
    let removed = remove_text old (count old - 1) s in
    let kept = String.◌∷◌ c (remove_text old zero s) in
    elim (after_prefix old (String.◌∷◌ c s)) [ none ↦ kept | some _ ↦ removed ]

-- `text.split(".")[0]`
unfoldable pub before_dot : String → String
before_dot String.[] = String.[]
before_dot (String.◌∷◌ c s) =
    let rest = before_dot s in if code c == 46 then String.[] else String.◌∷◌ c rest

char_of : Char → ℕ → String → Char
char_of c n String.[] = c
char_of c zero (String.◌∷◌ d s) = d
char_of c (suc n) (String.◌∷◌ d s) = char_of c n s

-- `text.lower()`, of a text in ASCII
unfoldable pub lower : String → String
unfolding char_of
lower String.[] = String.[]
lower (String.◌∷◌ c s) =
    let rest = lower s in
    if leb 65 (code c) && leb (code c) 90
    then String.◌∷◌ (char_of c (code c - 65) "abcdefghijklmnopqrstuvwxyz") rest
    else String.◌∷◌ c rest

-- `_proposal_identifier`
unfoldable pub proposal_identifier : String → String → Checked String
unfolding remove_text before_dot lower resource_id
proposal_identifier fingerprint now =
    let without = λ (old : String) (s : String). remove_text old 0 s in
    let stamp =
      lower (
        before_dot (without "T" (without "t" (without "+0000" (without ":" (without "-" now)))))) in
    elim (resource_id ("op-" <> (stamp <> ("-" <> fingerprint)))) [
      | ok id ↦ ok id
      | err e ↦ err (id_error e)
    ]

-- what `propose_for_alert` answers when it does not raise
pub data Answer : Type 0 where
  proposal : OperatorProposal → Answer
  skip : SkippedAlert → Answer

-- the proposal of `propose_for_alert`
abbrev pub alert_proposal : OperatorAlert → String → String → OperatorProposal
alert_proposal alert now id = record {
  resource_id = id;
  created_at = now;
  status = proposed;
  trigger_kind = TriggerKind.alert;
  fingerprint = alert.fingerprint;
  alert = some alert;
  drift = none;
  diagnosis_summary = alert_firing alert.cloudfall_rule alert.service alert.server;
  evidence =
      ("alert " <> alert.name <> " firing since " <> alert.active_at)
      ∷ ("labels: severity=" <> alert.severity <> " environment=" <> alert.environment <> " server="
          <> alert.server <> " service=" <> alert.service)
      ∷ ("fingerprint " <> alert.fingerprint)
      ∷ [];
  operation_kind = converge_services;
  operation_server = alert.server;
  operation_service = some alert.service;
  command = "cloudfall-engine" ∷ "playbook" ∷ "services.yml" ∷ [];
  approval = none;
  outcome = none;
}

-- `propose_for_alert`
unfoldable pub propose_for_alert : OperatorAlert → List DeclaredService → String → Checked Answer
unfolding proposal_identifier
propose_for_alert alert services now =
    elim (first (λ s. s.resource_id == alert.service && s.server_id == alert.server) services) [
      | none ↦
          ok (skip (record { name = alert.name; reason = undeclared alert.service alert.server }))
      | some _ ↦ elim (proposal_identifier alert.fingerprint now) [
        | ok id ↦ ok (proposal (alert_proposal alert now id))
        | err e ↦ err e
      ]
    ]

module _ (site : Site) (services : List DeclaredService) (now : String) where
  -- the rest of the loop after one answer: `later` goes on as before, `covered` with the new proposal
  unfoldable pub take :
      Act (List String × List SkippedAlert)
      → Act (List String × List SkippedAlert)
      → Answer
      → Act (List String × List SkippedAlert)
  unfolding save
  take later covered (skip s) = do r ← later; pure (r.0, s ∷ r.1)
  take later covered (proposal p) = do save site p; r ← covered; pure (p.resource_id ∷ r.0, r.1)

  -- the loop of `run_once`, with what its two lists gain
  unfoldable pub consider : List String → List OperatorAlert → Act (List String × List SkippedAlert)
  unfolding propose_for_alert take
  consider blocking [] = pure ([], [])
  consider blocking (alert ∷ rest) =
      let later = consider blocking rest in
      let covered = consider (alert.fingerprint ∷ blocking) rest in
      if contains blocking alert.fingerprint
      then later
      else (do answer ← lift (propose_for_alert alert services now); take later covered answer)

  -- `feed.fetch()`
  abbrev pub call_feed : Act (List OperatorAlert)
  call_feed w = (
    elim (site.fetch w.events) [ ok alerts ↦ ok alerts | err e ↦ err (fault e) ],
    record w { events = w.events ++ (fetch_alerts ∷ []) },
  )

  -- the report of a pass
  unfoldable pub report : List String × List SkippedAlert → Act RunReport
  unfolding open_count
  report r = do
    n ← (λ w. (open_count site w, w))
    pure (record { proposed = r.0; skipped = r.1; open_proposals = n })

  -- `run_once` behind its reading of the store
  unfoldable pub look : List String → Act RunReport
  unfolding consider report
  look blocking = do alerts ← call_feed; r ← consider blocking alerts; report r

  -- `run_once`, at the time `now`
  unfoldable pub run_once : Act RunReport
  unfolding blocking_fingerprints look
  run_once = do blocking ← (λ w. (blocking_fingerprints site w, w)); look blocking
