-- ===== src/Tests/Proposals.antt =====
-- Proposals on the machine of the tests.
use cloudfall.Base.{some, [], ◌∷◌, ◌≡◌, refl, arith}
use cloudfall.Base.{string_eq, option_eq, codes_eq}
use cloudfall.Base.Dict.{lookup}
use cloudfall.Base.Results.{ok, err}
use cloudfall.Catalog.{scope_eq}
use cloudfall.Decision.Records.{status_eq, targets_eq, inputs_eq}
use cloudfall.Decision.Errors.{DecisionError}
use cloudfall.Decision.Inputs.{coerced, validated_inputs}
use cloudfall.Decision.Inputs.Laws.{
  Held, last_named, validated_inputs-lookup, validated_inputs_again,
}
use cloudfall.Decision.World.{word, json_of}
use cloudfall.Decision.Prepare.{ProposalRequest, Prepared, prepare}
use cloudfall.Decision.Propose.{propose}
use cloudfall.Decision.Propose.Promises.{
  ChecksOnly, Gated, propose-ChecksOnly, propose-Gated, propose_same_id, propose_of_long_id,
}
use cloudfall.Tests.Machine.{machine, restart, request, noon, empty, proposal, opened}

first_proposal : (propose machine request noon empty).0 ≡ ok proposal
unfolding propose string_eq scope_eq option_eq coerced
first_proposal = refl

propose-ChecksOnly_example : ChecksOnly empty (propose machine request noon empty).1
propose-ChecksOnly_example = propose-ChecksOnly machine request noon empty

propose-Gated_example : (proposal.risk ≡ restart.risk) × Gated proposal
propose-Gated_example =
    propose-Gated machine request noon empty {v = (propose machine request noon empty).1}
      (λ i. (first_proposal i, (propose machine request noon empty).1))

given : validated_inputs restart request.inputs ≡ ok proposal.inputs
unfolding validated_inputs string_eq coerced
given = refl

validated_inputs-lookup_example :
    Held
      (last_named "delay" restart.inputs)
      (lookup "delay" request.inputs)
      (lookup "delay" proposal.inputs)
validated_inputs-lookup_example =
    validated_inputs-lookup restart request.inputs proposal.inputs "delay" given

validated_inputs_again_example : validated_inputs restart proposal.inputs ≡ ok proposal.inputs
validated_inputs_again_example = validated_inputs_again restart request.inputs proposal.inputs given

-- What the same proposal is prepared to, where the first one is recorded.
abbrev prepared_again : Prepared
prepared_again = record {
  inputs = proposal.inputs;
  pattern = some "web-1";
  recorded = proposal ∷ [];
  id = proposal.decision_id;
  command = record {
    argv =
        word "ansible-playbook"
        ∷ word "--check"
        ∷ word "--diff"
        ∷ word "--limit"
        ∷ word "web-1"
        ∷ word "--extra-vars"
        ∷ json_of proposal.inputs
        ∷ word "repo/restart.yml"
        ∷ [];
    environment =
        ("ANSIBLE_CALLBACKS_ENABLED", "tree")
        ∷ ("ANSIBLE_CALLBACK_TREE_DIR", "decisions/tree/restart-web-20260921120000")
        ∷ [];
  };
}

prepares_again : prepare machine request noon opened ≡ ok prepared_again
unfolding prepare string_eq scope_eq option_eq coerced
prepares_again = refl

recorded : lookup proposal.decision_id opened.records ≡ some proposal
unfolding lookup string_eq
recorded = refl

propose_same_id_example :
    let after = propose machine request noon opened in
    (after.1.records ≡ opened.records)
    × (lookup "decisions/restart-web-20260921120000.diff" after.1.artifacts ≡ some "changed")
    × ((e : DecisionError) × (after.0 ≡ err e))
propose_same_id_example =
    propose_same_id machine request noon opened prepared_again proposal prepares_again recorded

-- A request for an operation with an id of 49 characters.
abbrev long_request : ProposalRequest
long_request = record request {
  operation = record restart { operation_id = "restart-the-web-server-behind-the-public-gateway1" };
}

propose_of_long_id_example :
    (e : DecisionError) × (propose machine long_request noon empty ≡ (err e, empty))
propose_of_long_id_example = propose_of_long_id machine long_request noon empty (omega arith) refl
