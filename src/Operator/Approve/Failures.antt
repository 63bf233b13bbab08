-- ===== src/Operator/Approve/Failures.antt =====
-- Executions that the engine refuses: what is recorded of them.
use Prim.Native.String.{count}
use cloudfall.Base.{ℕ, zero, suc, ◌+◌, ◌-◌, ◌≤◌, ◌<◌, String, ◌<>◌, leb, none, some}
use cloudfall.Base.{◌≡◌, Bool-cases, inl, inr, string_eq, arith}
use text.Mathlib.TextLemmas.{length-append, length-cons, length-nil}
use cloudfall.Base.Dict.{lookup}
use cloudfall.Base.Results.{ok, err}
use cloudfall.Decision.Records.{ApprovalChannel}
use cloudfall.Operator.Records.{
  ProposalStatus, executed, failed, Detail, pending, execution_failed, OperatorProposal,
}
use cloudfall.Operator.World.{coded, other, OperatorError, fault, Site, World}
use cloudfall.Base.{◌⊎◌, String, [], ◌∷◌, if◌then◌else◌, ◌==◌}
use cloudfall.Operator.Approve.{
  ApproveOptions, detail_max, drop_chars, last_chars, after_prefix, shorten, failure_detail,
}

count-drop_chars : (n : ℕ) (s : String) → count (drop_chars n s) ≡ count s - n
unfolding drop_chars
count-drop_chars zero s = omega arith
count-drop_chars (suc n) String.[] = omega (arith, length-nil)
count-drop_chars (suc n) (String.◌∷◌ c s) = omega (arith, length-cons c s, count-drop_chars n s)

count-last_chars :
    (limit used : ℕ) (s : String) → used < limit → count (last_chars limit used s) ≤ limit - used
unfolding last_chars
count-last_chars limit used s h = ground (arith, count-drop_chars (count s - (limit - used)) s)

count-shorten :
    (head message : String) → count head ≤ 996 → count (shorten head message) ≤ detail_max
unfolding shorten
count-shorten head message h = elim (Bool-cases (leb (count head + count message) detail_max)) [
  | inl fits ↦ ground (arith, length-append head message)
  | inr over ↦
      let tail = last_chars detail_max (count head + count "...") message in
      ground (
        arith,
        length-append head ("..." <> tail),
        length-append "..." tail,
        count-last_chars detail_max (count head + count "...") message (omega arith),
      )
]

-- The recorded detail of a failure never exceeds the cap, however long the engine's message is, if the
-- code is at most 900 characters long.
pub count-failure_detail :
    (name printed : String) → count name ≤ 900 → count (failure_detail name printed) ≤ detail_max
unfolding failure_detail
count-failure_detail name printed short =
    count-shorten ("execution failed: " <> (name <> ": "))
      (elim (after_prefix (name <> ": ") printed) [ none ↦ printed | some rest ↦ rest ])
      (omega (arith, length-append "execution failed: " (name <> ": "), length-append name ": "))

-- The receipt of `p`, and no other, has changed: to that status and detail, under a human approval,
-- with the time at which the engine was called and no time of a verification.
pub record LeftAs (site : Site) (p : OperatorProposal) (via : ApprovalChannel)
    (status : ProposalStatus) (detail : Detail) (w v : World) : Type 0 where
  pub receipt : OperatorProposal
  pub same_id : receipt.resource_id ≡ p.resource_id
  pub same_fingerprint : receipt.fingerprint ≡ p.fingerprint
  pub in_status : receipt.status ≡ status
  pub by_human : receipt.approval ≡ some (record { mode = "human"; policy = none; via = some via })
  pub told :
      receipt.outcome
      ≡ some (record {
        executed_at = site.now w.events;
        verified_at = none;
        result = "failed";
        detail = detail;
      })
  pub recorded :
      (j : String)
      → lookup j v.proposals ≡ (if j == p.resource_id then some receipt else lookup j w.proposals)

module _ (site : Site) (via : ApprovalChannel) (options : ApproveOptions) (w : World)
    (p : OperatorProposal) where
  -- What an approval that raises `e` has left behind, by what the engine answered.
  abbrev pub Left : OperatorError → World → Type 0
  Left e v =
      ((site.execute w.events p ≡ err other) × (e ≡ fault other) × (v.proposals ≡ w.proposals))
      ⊎ ((name : String) × (message : String) × (site.execute w.events p ≡ err (coded name message))
          × (e ≡ fault (coded name message))
          × LeftAs site p via failed (execution_failed (failure_detail name message)) w v)
      ⊎ ((site.execute w.events p ≡ ok tt) × LeftAs site p via executed pending w v)
