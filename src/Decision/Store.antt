-- ===== src/Decision/Store.antt =====
-- `DecisionStore` of decision.py.
pub mod Laws
use cloudfall.Base.{String, ◌<>◌, none, some, List, [], ◌∷◌}
use cloudfall.Base.{string_eq, if◌then◌else◌}
use cloudfall.Base.Dict.{lookup, put}
use cloudfall.Base.Sorting.{sort_by}
use cloudfall.Base.Results.{ok, err, ◌>>=◌}
use cloudfall.Decision.Records.{Decision}
use cloudfall.Decision.Errors.{
  Checked, decision_exists, decision_missing, record_invalid, schema_error,
}
use cloudfall.Decision.World.{Controller, World, Exec}

module _ (c : Controller) where
  -- `_write`
  unfoldable pub write : Decision → Exec (Unit {0})
  unfolding put
  write d w =
      if c.valid d
      then (ok tt, record w { records = put d.decision_id d w.records })
      else (err (schema_error d.decision_id), w)

  -- `save`
  unfoldable pub save : Decision → Exec (Unit {0})
  unfolding write lookup
  save d w = elim (lookup d.decision_id w.records) [
    | none ↦ write d w
    | some _ ↦ (err (decision_exists d.decision_id), w)
  ]

  -- `update`
  unfoldable pub update : Decision → Exec (Unit {0})
  unfolding write lookup
  update d w = elim (lookup d.decision_id w.records) [
    | none ↦ (err (decision_missing d.decision_id), w)
    | some _ ↦ write d w
  ]

  -- the check of a record that is there
  abbrev checked : String → Decision → Checked Decision
  checked id d = if c.valid d then ok d else err (record_invalid id)

  -- `load`
  unfoldable pub load : String → Exec Decision
  unfolding lookup
  load id w = elim (lookup id w.records) [
    | none ↦ (err (decision_missing id), w)
    | some d ↦ (checked id d, w)
  ]

  -- the loop of `list` over the records, in the order of their file names
  unfoldable pub load_all : List (String × Decision) → Checked (List Decision)
  load_all [] = ok []
  load_all ((id, d) ∷ rest) = do loaded ← checked id d; more ← load_all rest; ok (loaded ∷ more)

  -- `list`, which changes nothing
  unfoldable pub list_all : World → Checked (List Decision)
  unfolding load_all sort_by
  list_all w = do
    all ← load_all (sort_by (λ entry. entry.0 <> ".json") w.records)
    ok (sort_by (λ d. d.proposed_at) all)
