-- ===== src/Operator/Approve.antt =====
-- `approve` and `_execute_and_verify` of operator.py.
pub mod Laws
pub mod Promises
pub mod Failures
use Prim.Native.Char.{code}
use Prim.Native.String.{count}
use cloudfall.Base.{
  ℕ, zero, suc, ◌+◌, ◌-◌, String, ◌<>◌, Bool, true, false, Option, none, some, List, [], ◌∷◌, ◌++◌,
}
use cloudfall.Base.{◌==◌, nat_eq, leb, ltb, if◌then◌else◌}
use cloudfall.Base.Results.{Result, ok, err}
use cloudfall.Base.Effects.{◌>>=◌, ◌>>◌, pure, lift, raise}
use cloudfall.Decision.Records.{ApprovalChannel, terminal, unknown}
use cloudfall.Operator.Records.{
  proposed, executed, verified, failed, ApprovalRecord, pending, resolved, unresolved_after,
  execution_failed, OperatorProposal,
}
use cloudfall.Operator.World.{
  Fault, coded, other, OperatorError, proposal_not_open, channel_unknown, fault, still_running, run,
  ask, wait, Site, World, Checked, Act,
}
use cloudfall.Operator.Store.{update, load, is_proposed}

-- `_OUTCOME_DETAIL_MAX`
abbrev pub detail_max : ℕ
detail_max = 1000

-- `text[n:]`
unfoldable pub drop_chars : ℕ → String → String
drop_chars zero s = s
drop_chars (suc n) String.[] = String.[]
drop_chars (suc n) (String.◌∷◌ c s) = drop_chars n s

-- `text[-(limit - used):]`, for a limit at most, above and below what is used
unfoldable pub last_chars : ℕ → ℕ → String → String
unfolding drop_chars
last_chars limit used message =
    if ltb used limit
    then drop_chars (count message - (limit - used)) message
    else drop_chars (used - limit) message

-- the text behind a prefix, if it has it
unfoldable pub after_prefix : String → String → Option String
after_prefix String.[] s = some s
after_prefix (String.◌∷◌ c prefix) String.[] = none
after_prefix (String.◌∷◌ c prefix) (String.◌∷◌ d s) =
    let rest = after_prefix prefix s in if code c == code d then rest else none

-- the head and the message, or the head and the end of the message
unfoldable pub shorten : String → String → String
unfolding last_chars
shorten head message =
    if leb (count head + count message) detail_max
    then head <> message
    else head <> ("..." <> last_chars detail_max (count head + count "...") message)

-- `_execution_failure_detail`, from `error.code` and `str(error)`
unfoldable pub failure_detail : String → String → String
unfolding shorten after_prefix
failure_detail name printed =
    shorten ("execution failed: " <> (name <> ": "))
      (elim (after_prefix (name <> ": ") printed) [ none ↦ printed | some rest ↦ rest ])

-- `ApproveOptions`, with its times in one unit
pub record ApproveOptions : Type 0 where
  pub verify_timeout : ℕ
  pub poll_interval : ℕ

-- the receipt of an execution that raised
abbrev pub failed_receipt :
    OperatorProposal → ApprovalRecord → String → String → String → OperatorProposal
failed_receipt p approval executed_at code message = record p {
  status = failed;
  approval = some approval;
  outcome = some (record {
    executed_at = executed_at;
    verified_at = none;
    result = "failed";
    detail = execution_failed (failure_detail code message);
  });
}

-- the receipt of an execution that is not verified yet
abbrev pub executed_receipt : OperatorProposal → ApprovalRecord → String → OperatorProposal
executed_receipt p approval executed_at = record p {
  status = executed;
  approval = some approval;
  outcome = some (record {
    executed_at = executed_at;
    verified_at = none;
    result = "failed";
    detail = pending;
  });
}

-- the receipt at the end of the verification, which found the trigger resolved or not
abbrev pub settled_receipt : Bool → OperatorProposal → String → String → ℕ → OperatorProposal
settled_receipt true p executed_at verified_at timeout = record p {
  status = verified;
  outcome = some (record {
    executed_at = executed_at;
    verified_at = some verified_at;
    result = "verified";
    detail = resolved;
  });
}
settled_receipt false p executed_at verified_at timeout = record p {
  status = failed;
  outcome = some (record {
    executed_at = executed_at;
    verified_at = some verified_at;
    result = "failed";
    detail = unresolved_after timeout;
  });
}

module _ (site : Site) where
  -- `executor(proposal)`
  abbrev pub call_executor : OperatorProposal → World → Result Fault (Unit {0}) × World
  call_executor p w =
      (site.execute w.events p, record w { events = w.events ++ (run p.resource_id ∷ []) })

  abbrev faulted : {A : Type 0} → Result Fault A → Checked A
  faulted (ok a) = ok a
  faulted (err e) = err (fault e)

  -- `verifier(proposal)`
  abbrev pub call_verifier : OperatorProposal → Act Bool
  call_verifier p w =
      (faulted (site.verify w.events p), record w { events = w.events ++ (ask p.resource_id ∷ []) })

  -- `options.sleep(seconds)`
  abbrev pub sleep : ℕ → Act (Unit {0})
  sleep n w = (ok tt, record w { events = w.events ++ (wait n ∷ []) })

  module _ (p done : OperatorProposal) (executed_at : String) (options : ApproveOptions) where
    -- The end of the loop: the receipt is updated and returned.
    unfoldable pub settle : Bool → Act OperatorProposal
    unfolding update
    settle found w =
        let receipt =
          settled_receipt found done executed_at (site.now w.events) options.verify_timeout in
        (do update site receipt; pure receipt) w

    -- The loop of `_execute_and_verify`, for so many rounds at most; `waited` is the time it has slept.
    unfoldable pub verify_until : ℕ → ℕ → Act OperatorProposal
    unfolding settle
    verify_until zero waited = raise still_running
    verify_until (suc rounds) waited =
        let again = verify_until rounds (waited + options.poll_interval) in
        do
          found ← call_verifier p
          if found
              then settle true
              else if leb options.verify_timeout waited
              then settle false
              else (sleep options.poll_interval >> again)

  -- `_execute_and_verify` once the executor has come back
  unfoldable pub conclude :
      OperatorProposal
      → ApprovalRecord
      → ApproveOptions
      → String
      → Result Fault (Unit {0})
      → Act OperatorProposal
  unfolding update failure_detail verify_until
  conclude p approval options executed_at (err (coded code message)) = do
    update site (failed_receipt p approval executed_at code message)
    raise (fault (coded code message))
  conclude p approval options executed_at (err other) = raise (fault other)
  conclude p approval options executed_at (ok _) = do
    update site (executed_receipt p approval executed_at)
    verify_until p (executed_receipt p approval executed_at) executed_at options
        (suc options.verify_timeout) 0

  -- `_execute_and_verify`
  unfoldable pub execute_and_verify :
      OperatorProposal → ApprovalRecord → ApproveOptions → Act OperatorProposal
  unfolding conclude
  execute_and_verify p approval options w =
      let (result, after) = call_executor p w in
      conclude p approval options (site.now w.events) result after

  abbrev refuse_unknown : ApprovalChannel → Checked (Unit {0})
  refuse_unknown terminal = ok tt
  refuse_unknown unknown = err channel_unknown

  -- the checks of `approve`
  unfoldable pub admit : String → ApprovalChannel → World → Checked OperatorProposal
  unfolding load
  admit id via w = elim (refuse_unknown via) [
    | err e ↦ err e
    | ok _ ↦ elim (load site id w) [
      | err e ↦ err e
      | ok p ↦ if is_proposed p.status then ok p else err (proposal_not_open p.status)
    ]
  ]

  -- `approve`
  unfoldable pub approve : String → ApprovalChannel → ApproveOptions → Act OperatorProposal
  unfolding admit execute_and_verify
  approve id via options = do
    p ← (λ w. (admit id via w, w))
    execute_and_verify p (record { mode = "human"; policy = none; via = some via }) options
