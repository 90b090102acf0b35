-- ===== src/Config/Validate.antt =====
-- Validate of pkg/config/validators.go, and its rule on the tags of disks.
pub mod Tags
pub mod Whole
use proxclt.Base.{
  ℕ, ◌+◌, Str, String, lit, itoa, str_eq, is_empty, Bool, true, false, not, ◌||◌, if◌then◌else◌,
  Option, none, some, List, [], ◌∷◌, ◌++◌, Error, errorf, wrapf, Result, ok, err, ◌>>=◌, ◌>>◌,
  joined,
}
use proxclt.Config.Model.{
  Dict, Disk, Node, Hypervisor, Networks, StorageClasses, Cluster, Value, Items, Fields, null, bool,
  int, string, slice, mapping, nil, cons, end, field, Linux, Database, Ref, resolved, resolved_at,
  Env,
}
use proxclt.Config.Validators.{
  validate_uniqueness, validate_rac_invariants, validate_nic_network_refs,
  validate_disk_storage_refs,
}

-- raw[k], the nil value where the key is missing
unfoldable pub value_at : Str → Fields → Value
value_at k end = null
value_at k (field j v rest) = if str_eq j k then v else value_at k rest

-- The three type assertions, with the zero value where they fail.
unfoldable pub as_mapping : Value → Option Fields
as_mapping (mapping fs) = some fs
as_mapping null = none
as_mapping (bool b) = none
as_mapping (int n) = none
as_mapping (string s) = none
as_mapping (slice xs) = none

unfoldable pub as_slice : Value → Option Items
as_slice (slice xs) = some xs
as_slice null = none
as_slice (bool b) = none
as_slice (int n) = none
as_slice (string s) = none
as_slice (mapping fs) = none

unfoldable pub as_string : Value → Str
as_string (string s) = s
as_string null = []
as_string (bool b) = []
as_string (int n) = []
as_string (slice xs) = []
as_string (mapping fs) = []

-- The tags of the disks, as the keys of a map.
unfoldable pub disk_tags : List Disk → List Str
disk_tags [] = []
disk_tags (d ∷ rest) = let more = disk_tags rest in if is_empty d.tag then more else d.tag ∷ more

unfoldable pub node_tags : Dict Node → List Str
node_tags [] = []
node_tags ((name, node) ∷ rest) = disk_tags node.disks ++ node_tags rest

unfoldable pub has_tag : Str → List Str → Bool
has_tag t [] = false
has_tag t (s ∷ rest) = str_eq s t || has_tag t rest

-- The tag that an entry of the layout refers to, empty where it refers to none.
unfoldable pub entry_tag : Value → Str
unfolding as_mapping as_string value_at
entry_tag v = elim (as_mapping v) [ none ↦ [] | some m ↦ as_string (value_at (lit "tag") m) ]

unfoldable pub check_entries : List Str → ℕ → Items → Result (Unit {0})
check_entries tags i nil = ok tt
check_entries tags i (cons v rest) =
    let later = check_entries tags (i + 1) rest in
    if is_empty (entry_tag v)
    then later
    else if has_tag (entry_tag v) tags
    then later
    else err (
        errorf "linux.disk_layout.additional[%d]: tag %q not present on any hypervisor disk"
          (itoa i ∷ entry_tag v ∷ []))

-- linux.disk_layout.additional, where it is a list
unfoldable pub additional : Linux → Option Items
unfolding as_mapping as_slice value_at
additional l = elim (as_mapping (value_at (lit "disk_layout") l.raw)) [
  | none ↦ none
  | some layout ↦ as_slice (value_at (lit "additional") layout)
]

unfoldable pub validate_disk_tag_refs : Env → Result (Unit {0})
validate_disk_tag_refs env = elim (resolved_at env.spec.linux) [
  | none ↦ ok tt
  | some l ↦ elim (additional l) [
    | none ↦ ok tt
    | some entries ↦ elim (resolved env.spec.hypervisor) [
      | none ↦ ok tt
      | some hyp ↦ check_entries (node_tags hyp.nodes) 0 entries
    ]
  ]
]

-- The struct-tag validation of github.com/go-playground/validator, one check for each type.
pub record StructTags : Type 0 where
  pub check_env : Env → Result (Unit {0})
  pub check_hypervisor : Hypervisor → Result (Unit {0})
  pub check_networks : Networks → Result (Unit {0})
  pub check_storage_classes : StorageClasses → Result (Unit {0})
  pub check_cluster : Cluster → Result (Unit {0})
  pub check_linux : Linux → Result (Unit {0})
  pub check_database : Database → Result (Unit {0})

-- A child is checked where it is resolved.
unfoldable pub check_child :
    {A : Type 0} → String → List Str → (A → Result (Unit {0})) → Option A → Result (Unit {0})
check_child label args check none = ok tt
check_child label args check (some a) = elim (check a) [
  | ok u ↦ ok tt
  | err e ↦ err (wrapf label args e)
]

unfoldable pub check_databases : StructTags → ℕ → List (Ref Database) → Result (Unit {0})
check_databases v i [] = ok tt
check_databases v i (d ∷ rest) =
    check_child "databases[%d]" (itoa i ∷ []) v.check_database (resolved d)
    >> check_databases v (i + 1) rest

-- `if err != nil { errs = append(errs, err) }`
abbrev pub note : Result (Unit {0}) → List Error → List Error
note (ok u) errs = errs
note (err e) errs = e ∷ errs

-- The errors of the cross-field rules, in the order of the rules.
unfoldable pub rule_errors : Env → List Error
rule_errors env = note (validate_uniqueness env) (
    note (validate_rac_invariants env) (
      note (validate_nic_network_refs env)
        (note (validate_disk_storage_refs env) (note (validate_disk_tag_refs env) []))))

-- The struct-tag checks of the manifest and of its resolved children, in the order of the code.
unfoldable pub check_tags : StructTags → Env → Result (Unit {0})
check_tags v env =
    check_child "struct validation" [] v.check_env (some env)
    >> (check_child "hypervisor" [] v.check_hypervisor (resolved env.spec.hypervisor)
        >> (check_child "networks" [] v.check_networks (resolved env.spec.networks)
            >> (check_child "storage_classes" [] v.check_storage_classes
                  (resolved env.spec.storage_classes)
                >> (check_child "cluster" [] v.check_cluster (resolved_at env.spec.cluster)
                    >> (check_child "linux" [] v.check_linux (resolved_at env.spec.linux)
                        >> check_databases v 0 env.spec.databases)))))

-- Validate; `none` is the nil pointer.
unfoldable pub validate : StructTags → Option Env → Result (Unit {0})
validate v none = err (errorf "validate: nil env" [])
validate v (some env) = check_tags v env >> joined (rule_errors env)
