-- ===== src/Decision/Store/Laws.antt =====
-- What saving, updating and listing records does, on every branch.
use cloudfall.Base.{
  String, ◌<>◌, Option, none, some, List, [], ◌∷◌, ◌≡◌, ◌≢◌, refl, ap, inl, inr, arith,
}
use cloudfall.Base.{Bool, true, false, string_eq, Member}
use cloudfall.Base.Dict.{Dict, lookup, put, Member-entry}
use cloudfall.Base.Sorting.{sort_by, Member-sort_by}
use cloudfall.Base.Results.{ok, err, >>=-eq-ok, ◌>>=◌}
use cloudfall.Decision.Records.{Decision}
use cloudfall.Decision.Errors.{DecisionError, Checked}
use cloudfall.Decision.World.{Controller, World}
use cloudfall.Decision.Store.{checked, save, update, load_all, list_all}

abbrev pub stored : Decision → World → World
stored d w = record w { records = put d.decision_id d w.records }

module _ (c : Controller) where
  -- An update writes the decision over a record of that id, or raises and changes nothing.
  pub update-post :
      (Q : Checked (Unit {0}) × World → Type 0) (d : Decision) (w : World)
      → (lookup d.decision_id w.records ≢ none → Q (ok tt, stored d w))
      → ((e : DecisionError) → Q (err e, w))
      → Q (update c d w)
  unfolding update
  update-post Q d w done refused = go (lookup d.decision_id w.records) refl (c.valid d) refl
    where
      go :
          (o : Option Decision)
          → lookup d.decision_id w.records ≡ o
          → (b : Bool) → c.valid d ≡ b
          → Q (update c d w)
      go none e b v = rw (update, e) (refused _)
      go (some old) e true v = rw (update, e, v) (done (λ p. cc))
      go (some old) e false v = rw (update, e, v) (refused _)

  -- A save writes a record of a new id, or raises and changes nothing.
  pub save-post :
      (Q : Checked (Unit {0}) × World → Type 0) (d : Decision) (w : World)
      → (lookup d.decision_id w.records ≡ none → Q (ok tt, stored d w))
      → ((e : DecisionError) → Q (err e, w))
      → Q (save c d w)
  unfolding save
  save-post Q d w done refused = go (lookup d.decision_id w.records) refl (c.valid d) refl
    where
      go :
          (o : Option Decision)
          → lookup d.decision_id w.records ≡ o
          → (b : Bool) → c.valid d ≡ b
          → Q (save c d w)
      go none e true v = rw (save, e, v) (done e)
      go none e false v = rw (save, e, v) (refused _)
      go (some old) e b v = rw (save, e) (refused _)

  load_all-Member :
      (entries : Dict String Decision) (out : List Decision) (k : String) (d : Decision)
      → load_all c entries ≡ ok out
      → Member (k, d) entries
      → Member d out
  unfolding load_all
  load_all-Member [] out k d h m = elim m [ ]
  load_all-Member ((id, x) ∷ rest) out k d h m =
      let (y, p, q) =
        >>=-eq-ok (checked c id x) (λ y. load_all c rest >>= λ more. ok (y ∷ more)) h in
      let (more, r, t) = >>=-eq-ok (load_all c rest) (λ more. ok (y ∷ more)) q in
      elim m [
        | inl e ↦ ground (arith, ap (λ z. z.1) e)
        | inr later ↦ ground (arith, load_all-Member rest more k d r later)
      ]

  -- A list that returns holds every record there is, and listing changes nothing.
  pub list_all-Member :
      (w : World) (out : List Decision) (k : String) (d : Decision)
      → list_all c w ≡ ok out
      → lookup k w.records ≡ some d
      → Member d out
  unfolding list_all
  list_all-Member w out k d h e =
      let (all, p, q) =
        >>=-eq-ok (load_all c (sort_by (λ entry. entry.0 <> ".json") w.records))
          (λ all. ok (sort_by (λ d. d.proposed_at) all)) h in
      let m = load_all-Member (sort_by (λ entry. entry.0 <> ".json") w.records) all k d p (
        Member-sort_by (λ entry. entry.0 <> ".json") (k, d) w.records
          (Member-entry k d w.records e)) in
      ground (arith, Member-sort_by (λ x. x.proposed_at) d all m)
