-- ===== src/Decision/Prepare/Laws.antt =====
-- What a prepared proposal consists of.
use cloudfall.Base.{String, true, Option, List, ◌≡◌, refl}
use mathlib.Core.Path.{subst}
use cloudfall.Base.Results.{Result, ok, err}
use cloudfall.Decision.Records.{Inputs, Decision}
use cloudfall.Decision.Errors.{Checked}
use cloudfall.Decision.Inputs.{validated_inputs, validated_targets}
use cloudfall.Decision.World.{Moment, Controller, World}
use cloudfall.Decision.Store.{list_all}
use cloudfall.Decision.Run.{Command, run_command}
use cloudfall.Decision.Prepare.{
  ProposalRequest, Prepared, decision_identifier, check_invocation, prepare,
}

-- The parts of a prepared proposal are what each check returned.
pub record IsPrepared (c : Controller) (request : ProposalRequest) (moment : Moment) (w : World)
    (p : Prepared) : Type 0 where
  pub by_inputs : validated_inputs request.operation request.inputs ≡ ok p.inputs
  pub by_targets : validated_targets request.operation request.targets ≡ ok p.pattern
  pub by_list : list_all c w ≡ ok p.recorded
  pub by_id : decision_identifier request.operation.operation_id moment ≡ ok p.id
  pub by_command :
      run_command c (check_invocation c request p.inputs p.pattern p.id) true ≡ ok p.command

module _ (c : Controller) (request : ProposalRequest) (moment : Moment) (w : World) where
  pub prepare-IsPrepared :
      (p : Prepared) → prepare c request moment w ≡ ok p → IsPrepared c request moment w p
  unfolding prepare
  prepare-IsPrepared p =
      go (validated_inputs request.operation request.inputs) refl
        (validated_targets request.operation request.targets) refl (list_all c w) refl
        (decision_identifier request.operation.operation_id moment) refl
    where
      finish :
          (declared : Inputs) (pattern : Option String) (recorded : List Decision) (id : String)
          → validated_inputs request.operation request.inputs ≡ ok declared
          → validated_targets request.operation request.targets ≡ ok pattern
          → list_all c w ≡ ok recorded
          → decision_identifier request.operation.operation_id moment ≡ ok id
          → (r : Checked Command)
          → run_command c (check_invocation c request declared pattern id) true ≡ r
          → prepare c request moment w ≡ ok p
          → IsPrepared c request moment w p
      finish declared pattern recorded id a b l i (err e) r h =
          let k : Result.err e ≡ ok p = rw (prepare, a, b, l, i, r) at h in cc
      finish declared pattern recorded id a b l i (ok command) r h =
          let built : Prepared = record {
            inputs = declared;
            pattern = pattern;
            recorded = recorded;
            id = id;
            command = command;
          } in
          let k : Result.ok built ≡ ok p = rw (prepare, a, b, l, i, r) at h in
          let same : built ≡ p = cc in
          subst (IsPrepared c request moment w) same
            (record { by_inputs = a; by_targets = b; by_list = l; by_id = i; by_command = r })

      go :
          (a : Checked Inputs)
          → validated_inputs request.operation request.inputs ≡ a
          → (b : Checked (Option String)) → validated_targets request.operation request.targets ≡ b
          → (l : Checked (List Decision)) → list_all c w ≡ l
          → (i : Checked String) → decision_identifier request.operation.operation_id moment ≡ i
          → prepare c request moment w ≡ ok p
          → IsPrepared c request moment w p
      go (err e) a' b b' l l' i i' h = let k : Result.err e ≡ ok p = rw (prepare, a') at h in cc
      go (ok a) a' (err e) b' l l' i i' h =
          let k : Result.err e ≡ ok p = rw (prepare, a', b') at h in cc
      go (ok a) a' (ok b) b' (err e) l' i i' h =
          let k : Result.err e ≡ ok p = rw (prepare, a', b', l') at h in cc
      go (ok a) a' (ok b) b' (ok l) l' (err e) i' h =
          let k : Result.err e ≡ ok p = rw (prepare, a', b', l', i') at h in cc
      go (ok a) a' (ok b) b' (ok l) l' (ok i) i' h = finish a b l i a' b' l' i' _ refl h
