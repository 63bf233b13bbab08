-- ===== src/Operator/Store/Laws.antt =====
-- What saving, updating and listing receipts does, on every branch.
use cloudfall.Base.{
  String, ◌<>◌, Option, none, some, List, [], ◌∷◌, ◌≡◌, ◌≢◌, refl, ap, inl, inr, arith,
}
use cloudfall.Base.{Bool, true, false, string_eq, Member}
use cloudfall.Base.Dict.{Dict, lookup, put, Member-entry}
use cloudfall.Base.Sorting.{sort_by, Member-sort_by}
use cloudfall.Base.Results.{ok, err, >>=-eq-ok, ◌>>=◌}
use cloudfall.Operator.Records.{OperatorProposal}
use cloudfall.Operator.World.{OperatorError, still_running, Checked, Site, World}
use cloudfall.Operator.Store.{checked, save, update, load_all, list_all}

abbrev pub stored : OperatorProposal → World → World
stored p w = record w { proposals = put p.resource_id p w.proposals }

module _ (site : Site) where
  -- An update writes the receipt over a receipt of that id, or raises and changes nothing.
  pub update-post :
      (Q : Checked (Unit {0}) × World → Type 0) (p : OperatorProposal) (w : World)
      → (lookup p.resource_id w.proposals ≢ none → Q (ok tt, stored p w))
      → ((e : OperatorError) → e ≢ still_running → Q (err e, w))
      → Q (update site p w)
  unfolding update
  update-post Q p w done refused = go (lookup p.resource_id w.proposals) refl (site.valid p) refl
    where
      go :
          (o : Option OperatorProposal)
          → lookup p.resource_id w.proposals ≡ o
          → (b : Bool) → site.valid p ≡ b
          → Q (update site p w)
      go none e b v = rw (update, e) (refused _ (λ q. cc))
      go (some old) e true v = rw (update, e, v) (done (λ p. cc))
      go (some old) e false v = rw (update, e, v) (refused _ (λ q. cc))

  -- A save writes a receipt of a new id, or raises and changes nothing.
  pub save-post :
      (Q : Checked (Unit {0}) × World → Type 0) (p : OperatorProposal) (w : World)
      → (lookup p.resource_id w.proposals ≡ none → Q (ok tt, stored p w))
      → ((e : OperatorError) → Q (err e, w))
      → Q (save site p w)
  unfolding save
  save-post Q p w done refused = go (lookup p.resource_id w.proposals) refl (site.valid p) refl
    where
      go :
          (o : Option OperatorProposal)
          → lookup p.resource_id w.proposals ≡ o
          → (b : Bool) → site.valid p ≡ b
          → Q (save site p w)
      go none e true v = rw (save, e, v) (done e)
      go none e false v = rw (save, e, v) (refused _)
      go (some old) e b v = rw (save, e) (refused _)

  load_all-Member :
      (entries : Dict String OperatorProposal) (out : List OperatorProposal) (k : String)
      (d : OperatorProposal)
      → load_all site entries ≡ ok out
      → Member (k, d) entries
      → Member d out
  unfolding load_all
  load_all-Member [] out k d h m = elim m [ ]
  load_all-Member ((id, x) ∷ rest) out k d h m =
      let (y, p, q) =
        >>=-eq-ok (checked site id x) (λ y. load_all site rest >>= λ more. ok (y ∷ more)) h in
      let (more, r, t) = >>=-eq-ok (load_all site rest) (λ more. ok (y ∷ more)) q in
      elim m [
        | inl e ↦ ground (arith, ap (λ z. z.1) e)
        | inr later ↦ ground (arith, load_all-Member rest more k d r later)
      ]

  -- A list that returns holds every receipt there is, and listing changes nothing.
  pub list_all-Member :
      (w : World) (out : List OperatorProposal) (k : String) (d : OperatorProposal)
      → list_all site w ≡ ok out
      → lookup k w.proposals ≡ some d
      → Member d out
  unfolding list_all
  list_all-Member w out k d h e =
      let (all, p, q) =
        >>=-eq-ok (load_all site (sort_by (λ entry. entry.0 <> ".json") w.proposals))
          (λ all. ok (sort_by (λ d. d.created_at) all)) h in
      let m = load_all-Member (sort_by (λ entry. entry.0 <> ".json") w.proposals) all k d p (
        Member-sort_by (λ entry. entry.0 <> ".json") (k, d) w.proposals
          (Member-entry k d w.proposals e)) in
      ground (arith, Member-sort_by (λ x. x.created_at) d all m)
