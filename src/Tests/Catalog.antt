-- ===== src/Tests/Catalog.antt =====
-- A catalog of two operations.
use cloudfall.Base.{some, none, [], ◌∷◌, ◌≡◌, ◌≢◌, refl, inl, inr, Member, string_eq}
use cloudfall.Base.Dict.{lookup}
use cloudfall.Base.Results.{ok}
use cloudfall.Catalog.{Operation, OperationCatalog, get, reject_duplicates}
use cloudfall.Catalog.Laws.{get-Member}
use cloudfall.Tests.Machine.{restart}

abbrev reload : Operation
reload = record restart { operation_id = "reload-web"; source = some "reload.yaml" }

abbrev sourced_restart : Operation
sourced_restart = record restart { source = some "restart.yaml" }

abbrev catalog : OperationCatalog
catalog = record { operations = reload ∷ sourced_restart ∷ []; directory = "operations" }

no_duplicates : reject_duplicates catalog.operations ≡ ok tt
unfolding reject_duplicates lookup string_eq
no_duplicates = refl

all_sourced : (o : Operation) → Member o catalog.operations → o.source ≢ none
all_sourced o (inl e) = λ h. cc
all_sourced o (inr (inl e)) = λ h. cc
all_sourced o (inr (inr m)) = elim m [ ]

get-Member_example : get catalog "restart-web" ≡ ok sourced_restart
get-Member_example = get-Member catalog sourced_restart no_duplicates all_sourced (inr (inl refl))
