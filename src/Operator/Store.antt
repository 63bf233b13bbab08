-- ===== src/Operator/Store.antt =====
-- `ProposalStore` of operator.py.
pub mod Laws
use cloudfall.Base.{
  ℕ, suc, String, ◌<>◌, Bool, true, false, none, some, List, [], ◌∷◌, map, select, length,
}
use cloudfall.Base.{string_eq, if◌then◌else◌}
use cloudfall.Base.Dict.{lookup, put}
use cloudfall.Base.Sorting.{sort_by}
use cloudfall.Base.Results.{ok, err, ◌>>=◌}
use cloudfall.Operator.Records.{
  ProposalStatus, proposed, executed, verified, failed, is_blocking, OperatorProposal,
}
use cloudfall.Operator.World.{
  proposal_exists, proposal_missing, record_invalid, schema_error, Site, World, Checked, Act,
}

-- `status is ProposalStatus.PROPOSED`
abbrev pub is_proposed : ProposalStatus → Bool
is_proposed proposed = true
is_proposed executed = false
is_proposed verified = false
is_proposed failed = false

module _ (site : Site) where
  -- `_write`
  unfoldable pub write : OperatorProposal → Act (Unit {0})
  unfolding put
  write p w =
      if site.valid p
      then (ok tt, record w { proposals = put p.resource_id p w.proposals })
      else (err (schema_error p.resource_id), w)

  -- `save`
  unfoldable pub save : OperatorProposal → Act (Unit {0})
  unfolding write lookup
  save p w = elim (lookup p.resource_id w.proposals) [
    | none ↦ write p w
    | some _ ↦ (err (proposal_exists p.resource_id), w)
  ]

  -- `update`
  unfoldable pub update : OperatorProposal → Act (Unit {0})
  unfolding write lookup
  update p w = elim (lookup p.resource_id w.proposals) [
    | none ↦ (err (proposal_missing p.resource_id), w)
    | some _ ↦ write p w
  ]

  -- the check of a receipt that is there
  abbrev pub checked : String → OperatorProposal → Checked OperatorProposal
  checked id p = if site.valid p then ok p else err (record_invalid id)

  -- `load`
  unfoldable pub load : String → World → Checked OperatorProposal
  unfolding lookup
  load id w = elim (lookup id w.proposals) [
    | none ↦ err (proposal_missing id)
    | some p ↦ checked id p
  ]

  -- the loop of `list` over the receipts, in the order of their file names
  unfoldable pub load_all : List (String × OperatorProposal) → Checked (List OperatorProposal)
  load_all [] = ok []
  load_all ((id, p) ∷ rest) = do loaded ← checked id p; more ← load_all rest; ok (loaded ∷ more)

  -- `list`, which changes nothing
  unfoldable pub list_all : World → Checked (List OperatorProposal)
  unfolding load_all sort_by
  list_all w = do
    all ← load_all (sort_by (λ entry. entry.0 <> ".json") w.proposals)
    ok (sort_by (λ p. p.created_at) all)

  -- `blocking_fingerprints`
  unfoldable pub blocking_fingerprints : World → Checked (List String)
  unfolding list_all
  blocking_fingerprints w = do
    all ← list_all w
    ok (map (λ p. p.fingerprint) (select (λ p. is_blocking p.status) all))

  -- `_open_count`
  unfoldable pub open_count : World → Checked ℕ
  unfolding list_all
  open_count w = do all ← list_all w; ok (length (select (λ p. is_proposed p.status) all))
