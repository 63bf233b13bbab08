-- ===== src/Catalog/Laws.antt =====
-- What a catalog without duplicates promises.
use cloudfall.Base.{String, Option, none, some, List, [], ◌∷◌, Member, Option-cases}
use cloudfall.Base.{◌≡◌, ◌≢◌, refl, inl, inr, string_eq, arith}
use cloudfall.Base.Dict.{Dict, lookup}
use cloudfall.Base.Results.{Result, ok, err}
use cloudfall.Catalog.{
  Operation, OperationCatalog, CatalogError, operation_duplicate, find_operation, get, remember,
  reject_from, reject_duplicates,
}

-- What is remembered is looked up under the operation's id.
lookup-remember :
    (operation : Operation) (seen : Dict String String) (id : String)
    → lookup id (remember operation seen) ≡ none
    → (lookup id seen ≡ none) × (operation.source ≢ none → operation.operation_id ≢ id)
unfolding lookup
lookup-remember operation seen id h = elim (Option-cases operation.source) [
  | inl absent ↦ (rw absent at h, λ n. absurd (n absent))
  | inr (path, known) ↦
      let k : lookup id ((operation.operation_id, path) ∷ seen) ≡ none = rw known at h in
      (ground arith, λ _ e. ground arith)
]

reject_from-cons :
    (seen : Dict String String) (operation : Operation) (rest : List Operation)
    → reject_from seen (operation ∷ rest) ≡ ok tt
    → (lookup operation.operation_id seen ≡ none)
      × (reject_from (remember operation seen) rest ≡ ok tt)
unfolding reject_from
reject_from-cons seen operation rest h = go (lookup operation.operation_id seen) refl
  where
    go :
        (o : Option String)
        → lookup operation.operation_id seen ≡ o
        → (lookup operation.operation_id seen ≡ none)
          × (reject_from (remember operation seen) rest ≡ ok tt)
    go none e = (e, rw (reject_from, e) at h)
    go (some path) e =
        let k : ◌≡◌ {A = Result CatalogError (Unit {0})}
            (err (operation_duplicate operation.operation_id)) (ok tt) =
          rw (reject_from, e) at h in
        cc

reject_from-fresh :
    (seen : Dict String String) (operations : List Operation) (operation : Operation)
    → reject_from seen operations ≡ ok tt
    → Member operation operations
    → lookup operation.operation_id seen ≡ none
reject_from-fresh seen [] operation h m = elim m [ ]
reject_from-fresh seen (head ∷ rest) operation h (inl e) =
    rw e (reject_from-cons seen head rest h).0
reject_from-fresh seen (head ∷ rest) operation h (inr m) =
    let (_, later) = reject_from-cons seen head rest h in
    (lookup-remember head seen operation.operation_id
      (reject_from-fresh (remember head seen) rest operation later m)).0

find_operation-Member :
    (seen : Dict String String) (operations : List Operation) (operation : Operation)
    → reject_from seen operations ≡ ok tt
    → ((o : Operation) → Member o operations → o.source ≢ none)
    → Member operation operations
    → find_operation operation.operation_id operations ≡ ok operation
unfolding find_operation
find_operation-Member seen [] operation h sourced m = elim m [ ]
find_operation-Member seen (head ∷ rest) operation h sourced (inl e) = rw e (ground arith)
find_operation-Member seen (head ∷ rest) operation h sourced (inr m) =
    let (_, later) = reject_from-cons seen head rest h in
    let (_, apart) =
      lookup-remember head seen operation.operation_id
        (reject_from-fresh (remember head seen) rest operation later m) in
    let other : head.operation_id ≢ operation.operation_id = apart (sourced head (inl refl)) in
    ground (
      arith,
      find_operation-Member (remember head seen) rest operation later (λ o k. sourced o (inr k)) m,
    )

-- In a catalog that passes the check for duplicates, and whose operations all know the file that they
-- come from, every operation is the one that its id finds.
pub get-Member :
    (catalog : OperationCatalog) (operation : Operation)
    → reject_duplicates catalog.operations ≡ ok tt
    → ((o : Operation) → Member o catalog.operations → o.source ≢ none)
    → Member operation catalog.operations
    → get catalog operation.operation_id ≡ ok operation
unfolding reject_duplicates get
get-Member catalog operation h sourced m =
    find_operation-Member [] catalog.operations operation h sourced m
