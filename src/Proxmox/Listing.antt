-- ===== src/Proxmox/Listing.antt =====
-- The listings of pkg/proxmox: ListNodes of client.go, ListVMs of vm.go, ListStorage of storage.go and
-- ListSnapshots of snapshot.go.
use proxclt.Base.{
  ℕ, ◌==◌, Str, lit, split, trim_space, is_empty, str_eq, Bool, if◌then◌else◌, List, [], ◌∷◌, ◌++◌,
  errorf, vm_not_found, Result, ok, err,
}
use proxclt.Config.Model.{
  Value, Items, Fields, null, bool, int, string, slice, mapping, nil, cons, end,
}
use proxclt.Config.Validate.{value_at}
use proxclt.World.{get, no_body, Action, return, ◌>>=◌, changing}
use proxclt.Proxmox.Client.{call, vm_path, as_upid, missing_as}
use proxclt.Proxmox.Vm.{Vm, and_then, as_vm, as_int, nodes_path}

pub record NodeSummary : Type 0 where
  pub name : Str
  pub status : Str
  pub kind : Str

pub record StorageInfo : Type 0 where
  pub name : Str
  pub kind : Str
  pub shared : Bool
  pub content : List Str

-- SnapTime in seconds.
pub record Snapshot : Type 0 where
  pub name : Str
  pub description : Str
  pub snap_time : ℕ
  pub parent : Str
  pub vm_state : Bool

abbrev undecodable {ℓ} : {A : Type ℓ} → Result A
undecodable = err (errorf "proxmox: decode data: %w" [])

module _ {A : Type 0} (decode : Value → Result A) where
  -- json.Unmarshal into a slice, element by element.
  unfoldable pub decode_items : Items → Result (List A)
  decode_items nil = ok []
  decode_items (cons v rest) =
      and_then (decode v) (λ a. and_then (decode_items rest) (λ later. ok (a ∷ later)))

  unfoldable pub as_list : Value → Result (List A)
  unfolding decode_items
  as_list null = ok []
  as_list (slice xs) = decode_items xs
  as_list (bool b) = undecodable
  as_list (int n) = undecodable
  as_list (string s) = undecodable
  as_list (mapping fs) = undecodable

module _ {A : Type 0} (decode : Fields → Result A) where
  -- json.Unmarshal into a struct, of whose fields a null changes none.
  unfoldable pub as_struct : Value → Result A
  as_struct null = decode end
  as_struct (mapping fs) = decode fs
  as_struct (bool b) = undecodable
  as_struct (int n) = undecodable
  as_struct (string s) = undecodable
  as_struct (slice xs) = undecodable

unfoldable pub node_of : Fields → Result NodeSummary
unfolding as_upid value_at
node_of fs = and_then (as_upid (value_at (lit "node") fs)) (λ name.
    and_then (as_upid (value_at (lit "status") fs)) (λ status.
      and_then (as_upid (value_at (lit "type") fs))
        (λ kind. ok (record { name = name; status = status; kind = kind }))))

unfoldable pub list_nodes : Action (List NodeSummary)
unfolding call as_list as_struct node_of
list_nodes = do v ← call get (lit "/nodes") no_body; return (as_list (as_struct node_of) v)

unfoldable pub list_vms : Str → Action (List Vm)
unfolding call nodes_path as_list as_vm
list_vms node = do
  v ← call get (nodes_path node (lit "/qemu")) no_body
  return (as_list (as_vm node 0) v)

without_empty : List Str → List Str
without_empty [] = []
without_empty (s ∷ rest) =
    let later = without_empty rest in
    if is_empty (trim_space s) then later else trim_space s ∷ later

unfoldable pub split_content : Str → List Str
unfolding split without_empty
split_content s = if is_empty s then [] else without_empty (split b',' s)

unfoldable pub storage_of : Fields → Result StorageInfo
unfolding as_upid as_int value_at split_content
storage_of fs = and_then (as_upid (value_at (lit "storage") fs)) (λ name.
    and_then (as_upid (value_at (lit "type") fs)) (λ kind.
      and_then (as_int (value_at (lit "shared") fs)) (λ shared.
        and_then (as_upid (value_at (lit "content") fs)) (λ content. ok (record {
          name = name;
          kind = kind;
          shared = shared == 1;
          content = split_content content;
        })))))

unfoldable pub list_storage : Str → Action (List StorageInfo)
unfolding call nodes_path as_list as_struct storage_of
list_storage node = do
  v ← call get (nodes_path node (lit "/storage")) no_body
  return (as_list (as_struct storage_of) v)

unfoldable pub snapshot_of : Fields → Result Snapshot
unfolding as_upid as_int value_at
snapshot_of fs = and_then (as_upid (value_at (lit "name") fs)) (λ name.
    and_then (as_upid (value_at (lit "description") fs)) (λ description.
      and_then (as_int (value_at (lit "snaptime") fs)) (λ snap_time.
        and_then (as_upid (value_at (lit "parent") fs)) (λ parent.
          and_then (as_int (value_at (lit "vmstate") fs)) (λ vm_state. ok (record {
            name = name;
            description = description;
            snap_time = snap_time;
            parent = parent;
            vm_state = vm_state == 1;
          }))))))

-- The entry of the running state is left out.
unfoldable pub saved : List Snapshot → List Snapshot
saved [] = []
saved (s ∷ rest) =
    let later = saved rest in if str_eq s.name (lit "current") then later else s ∷ later

unfoldable pub list_snapshots : Str → ℕ → Action (List Snapshot)
unfolding call vm_path missing_as as_list as_struct snapshot_of saved
list_snapshots node vmid = do
  v ← changing (missing_as vm_not_found) (call get (vm_path node vmid ++ lit "/snapshot") no_body)
  all ← return (as_list (as_struct snapshot_of) v)
  return (ok (saved all))
