-- ===== src/Proxmox/Snapshot.antt =====
-- pkg/proxmox/snapshot.go: the calls that take, delete and restore a snapshot.
use proxclt.Base.{ℕ, Str, lit, concat, is_empty, snapshot_not_found, not, Bool, [], ◌∷◌, ◌++◌}
use proxclt.Config.Model.{Dict}
use proxclt.World.{post, delete, no_body, form, Action}
use proxclt.Proxmox.Client.{vm_path, submit, submit_existing}
use proxclt.Proxmox.Specs.{set, set_if}

unfoldable pub snapshot_path : Str → ℕ → Str → Str
unfolding vm_path
snapshot_path node vmid rest = concat (vm_path node vmid ∷ lit "/snapshot" ∷ rest ∷ [])

unfoldable pub snapshot_form : Str → Str → Bool → Dict Str
snapshot_form name description vmstate =
    let f1 = set (lit "snapname") name [] in
    let f2 = set_if (not (is_empty description)) (lit "description") description f1 in
    set_if vmstate (lit "vmstate") (lit "1") f2

unfoldable pub create_snapshot : Str → ℕ → Str → Str → Bool → Action (Unit {0})
unfolding snapshot_path snapshot_form submit
create_snapshot node vmid name description vmstate =
    submit post node (snapshot_path node vmid []) (form (snapshot_form name description vmstate))

unfoldable pub delete_snapshot : Str → ℕ → Str → Action (Unit {0})
unfolding snapshot_path submit_existing
delete_snapshot node vmid name =
    submit_existing snapshot_not_found delete node (snapshot_path node vmid (lit "/" ++ name))
      no_body

unfoldable pub rollback_snapshot : Str → ℕ → Str → Action (Unit {0})
unfolding snapshot_path submit_existing
rollback_snapshot node vmid name =
    submit_existing snapshot_not_found post node
      (snapshot_path node vmid (lit "/" ++ name ++ lit "/rollback")) (form [])
