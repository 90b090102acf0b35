-- ===== src/Workflow/Apply/DryRun.antt =====
-- Apply of pkg/workflow/single_vm.go in a dry run.
use proxclt.Base.{List, [], ◌∷◌}
use proxclt.World.{Event, printed}
use proxclt.Workflow.Plan.{Change, kind_text}

-- The lines that announce the changes, the latest first, on top of a history.
unfoldable pub announced : List Change → List Event → List Event
announced [] hist = hist
announced (ch ∷ rest) hist =
    announced rest (printed "[dry-run] %s: %s" (kind_text ch.kind ∷ ch.description ∷ []) ∷ hist)
