-- ===== src/Operator/Drift.antt =====
-- `fingerprint_of`, `propose_for_drift`, `drift_pass` and `drift_resolution_verifier` of operator.py.
pub mod Laws
use cloudfall.Base.{
  ◌||◌, ◌++◌, select, ℕ, zero, suc, String, ◌<>◌, Bool, true, false, not, none, some, List, [], ◌∷◌,
  any, contains, first, map,
}
use cloudfall.Base.{◌==◌, string_eq, if◌then◌else◌}
use cloudfall.Base.Dict.{Dict}
use cloudfall.Base.Sorting.{sort_by}
use cloudfall.Base.Results.{ok, err}
use cloudfall.Operator.Records.{
  converge_services, converge_baseline, proposed, TriggerKind, OperationKind, kind_value,
  playbook_of, drift_reported, OperatorProposal,
}
use cloudfall.Base.Effects.{◌>>=◌, ◌>>◌, pure, lift}
use cloudfall.Ids.{resource_id}
use cloudfall.Operator.World.{id_error, Site, World, Checked, Act}
use cloudfall.Operator.Store.{save, blocking_fingerprints}
use cloudfall.Operator.Approve.{after_prefix}
use cloudfall.Operator.Trigger.{proposal_identifier}

-- One server of an audit, with the names of the checks that drifted.
pub record ServerAudit : Type 0 where
  pub server_id : String
  pub drifted : List String

-- `text[:n]`
unfoldable pub take_chars : ℕ → String → String
take_chars zero s = String.[]
take_chars (suc n) String.[] = String.[]
take_chars (suc n) (String.◌∷◌ c s) = String.◌∷◌ c (take_chars n s)

-- `separator.join(texts)`
unfoldable pub join : String → List String → String
join separator [] = ""
join separator (s ∷ []) = s
join separator (s ∷ t ∷ rest) = s <> (separator <> join separator (t ∷ rest))

-- The checks of one server that one playbook restores.
pub record Group : Type 0 where
  pub server_id : String
  pub kind : OperationKind
  pub checks : List String

abbrev pub is_empty : List String → Bool
is_empty [] = true
is_empty (s ∷ rest) = false

-- `text.startswith(prefix)`
unfoldable pub starts_with : String → String → Bool
unfolding after_prefix
starts_with prefix s = elim (after_prefix prefix s) [ none ↦ false | some _ ↦ true ]

-- `check.startswith(_SERVICE_CHECK_PREFIXES)`
unfoldable pub is_service_check : String → Bool
unfolding starts_with
is_service_check check = starts_with "services.bind[" check || starts_with "alerting.rules[" check

-- the groups of a server that has drifted
unfoldable pub groups_of : ServerAudit → List Group
unfolding is_service_check
groups_of audit =
    if is_empty audit.drifted
    then []
    else (record {
      server_id = audit.server_id;
      kind = converge_services;
      checks = select is_service_check audit.drifted;
    }
        ∷ record {
          server_id = audit.server_id;
          kind = converge_baseline;
          checks = select (λ check. not (is_service_check check)) audit.drifted;
        }
        ∷ [])

unfoldable pub all_groups : List ServerAudit → List Group
unfolding groups_of
all_groups [] = []
all_groups (audit ∷ rest) = groups_of audit ++ all_groups rest

-- `ResourceId.from_boundary(server_audit.server_id)`
abbrev pub server_of : String → Checked String
server_of id = elim (resource_id id) [ ok server ↦ ok server | err e ↦ err (id_error e) ]

-- `json.dumps` of an object of texts, and SHA-256 in hexadecimal
module _ (dumps : Dict String String → String) (sha256 : String → String) where
  -- `fingerprint_of`
  unfoldable pub fingerprint_of : Dict String String → String
  unfolding take_chars sort_by
  fingerprint_of content = take_chars 16 (sha256 (dumps (sort_by (λ entry. entry.0) content)))

  -- the fingerprint of a server's drift
  unfoldable pub drift_fingerprint : String → List String → OperationKind → String
  unfolding fingerprint_of join sort_by
  drift_fingerprint server checks kind = fingerprint_of (
      ("server", server)
      ∷ ("operation", kind_value kind)
      ∷ ("checks", join "," (sort_by (λ check. check) checks))
      ∷ [])

  -- `propose_for_drift`
  unfoldable pub propose_for_drift :
      String → List String → OperationKind → String → Checked OperatorProposal
  unfolding drift_fingerprint proposal_identifier
  propose_for_drift server checks kind now =
      let fingerprint = drift_fingerprint server checks kind in
      elim (proposal_identifier fingerprint now) [
        | err e ↦ err e
        | ok id ↦ ok (record {
          resource_id = id;
          created_at = now;
          status = proposed;
          trigger_kind = TriggerKind.drift;
          fingerprint = fingerprint;
          alert = none;
          drift = some (record { server = server; checks = checks; fingerprint = fingerprint });
          diagnosis_summary = drift_reported server checks (playbook_of kind);
          evidence = map (λ check. "audit check drifted: " <> check) checks;
          operation_kind = kind;
          operation_server = server;
          operation_service = none;
          command = "cloudfall-engine" ∷ "playbook" ∷ playbook_of kind ∷ [];
          approval = none;
          outcome = none;
        })
      ]

  module _ (site : Site) (now : String) where
    -- a new proposal is saved, and the rest follows
    unfoldable pub record_new : Act (List String) → OperatorProposal → Act (List String)
    unfolding save
    record_new rest p = do save site p; ids ← rest; pure (p.resource_id ∷ ids)

    -- the loops of `drift_pass`, over the groups of all servers, with the ids of the new proposals
    unfoldable pub consider_groups : List String → List Group → Act (List String)
    unfolding propose_for_drift record_new resource_id
    consider_groups blocking [] = pure []
    consider_groups blocking (group ∷ rest) =
        let later = consider_groups blocking rest in
        do
          server ← lift (server_of group.server_id)
          if is_empty group.checks then later else (do
            p ← lift (propose_for_drift server group.checks group.kind now)
            if contains blocking p.fingerprint
                then later
                else record_new (consider_groups (p.fingerprint ∷ blocking) rest) p)

    -- `drift_pass` once the auditor has reported
    unfoldable pub drift_pass : List ServerAudit → Act (List String)
    unfolding blocking_fingerprints consider_groups all_groups
    drift_pass servers = do
      blocking ← (λ w. (blocking_fingerprints site w, w))
      consider_groups blocking (all_groups servers)

-- whether none of the checks is among those that still drift
abbrev pub all_resolved : List String → List String → Bool
all_resolved checks drifting = not (any (contains drifting) checks)

-- `drift_resolution_verifier`, once the auditor has reported
unfoldable pub drift_resolved : OperatorProposal → List ServerAudit → Bool
drift_resolved p report = elim p.drift [
  | none ↦ false
  | some trigger ↦ elim (first (λ audit. audit.server_id == trigger.server) report) [
    | none ↦ false
    | some audit ↦ all_resolved trigger.checks audit.drifted
  ]
]
