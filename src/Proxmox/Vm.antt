-- ===== src/Proxmox/Vm.antt =====
-- pkg/proxmox/vm.go and pkg/proxmox/storage.go: the calls on virtual machines and on the contents
-- of a storage.
use proxclt.Base.{
  ℕ, ◌==◌, ◌*◌, ◌/◌, atoi, trim_space, require, Str, lit, concat, is_empty, Bool, true, false, ◌||◌,
  if◌then◌else◌, List, [], ◌∷◌, ◌++◌, Error, errorf, vm_not_found, Result, ok, err,
}
use proxclt.Config.Model.{Value, Fields, null, bool, int, string, slice, mapping, end}
use proxclt.Config.Validate.{value_at}
use proxclt.World.{get, post, delete, no_body, form, Action, return, ◌>>=◌, ◌>>◌, changing}
use proxclt.Proxmox.Client.{call, vm_path, as_upid, submit, submit_existing, missing_as}
use proxclt.Proxmox.Specs.{CreateOpts, check_opts, create_form}

unfoldable pub nodes_path : Str → Str → Str
nodes_path node rest = concat (lit "/nodes/" ∷ node ∷ rest ∷ [])

unfoldable pub create_vm : CreateOpts → Action (Unit {0})
unfolding nodes_path submit
create_vm o = do
  return (check_opts o)
  submit post o.node (nodes_path o.node (lit "/qemu")) (form (create_form o))

unfoldable pub vm_status : Str → ℕ → Str → Action (Unit {0})
unfolding submit vm_path
vm_status node vmid action =
    submit post node (concat (vm_path node vmid ∷ lit "/status/" ∷ action ∷ [])) (form [])

unfoldable pub start_vm : Str → ℕ → Action (Unit {0})
unfolding vm_status
start_vm node vmid = vm_status node vmid (lit "start")

unfoldable pub reboot_vm : Str → ℕ → Action (Unit {0})
unfolding vm_status
reboot_vm node vmid = vm_status node vmid (lit "reboot")

unfoldable pub stop_vm : Str → ℕ → Bool → Action (Unit {0})
unfolding vm_status
stop_vm node vmid force = vm_status node vmid (if force then lit "stop" else lit "shutdown")

unfoldable pub delete_path : Str → ℕ → Bool → Str
unfolding vm_path
delete_path node vmid purge =
    if purge
    then vm_path node vmid ++ lit "?purge=1&destroy-unreferenced-disks=1"
    else vm_path node vmid

unfoldable pub delete_vm : Str → ℕ → Bool → Action (Unit {0})
unfolding submit_existing delete_path
delete_vm node vmid purge =
    submit_existing vm_not_found delete node (delete_path node vmid purge) no_body

pub record Vm : Type 0 where
  pub vmid : ℕ
  pub name : Str
  pub node : Str
  pub status : Str
  pub cores : ℕ
  pub memory : ℕ
  pub tags : List Str
  pub uptime : ℕ

-- json.Unmarshal into a number; a json.Number may be quoted too.
unfoldable pub as_number : Value → Result ℕ
as_number (int n) = ok n
as_number null = ok 0
as_number (string s) = require (errorf "proxmox: decode data: %w" []) (atoi s)
as_number (bool b) = err (errorf "proxmox: decode data: %w" [])
as_number (slice xs) = err (errorf "proxmox: decode data: %w" [])
as_number (mapping fs) = err (errorf "proxmox: decode data: %w" [])

unfoldable pub as_int : Value → Result ℕ
as_int (int n) = ok n
as_int null = ok 0
as_int (string s) = err (errorf "proxmox: decode data: %w" [])
as_int (bool b) = err (errorf "proxmox: decode data: %w" [])
as_int (slice xs) = err (errorf "proxmox: decode data: %w" [])
as_int (mapping fs) = err (errorf "proxmox: decode data: %w" [])

-- strings.FieldsFunc on `;` and `,`: `word` is what was read of the current field.
unfoldable pub fields_from : Str → Str → List Str
fields_from word [] = if is_empty word then [] else word ∷ []
fields_from word (c ∷ s) = elim ((c == 59) || (c == 44)) [
  | true ↦ (if is_empty word then fields_from [] s else word ∷ fields_from [] s)
  | false ↦ fields_from (word ++ c ∷ []) s
]

unfoldable pub trimmed : List Str → List Str
trimmed [] = []
trimmed (f ∷ rest) =
    let later = trimmed rest in if is_empty (trim_space f) then later else trim_space f ∷ later

unfoldable pub split_tags : Str → List Str
unfolding fields_from trimmed
split_tags s = trimmed (fields_from [] s)

abbrev pub and_then {ℓ μ} : {A : Type ℓ} {B : Type μ} → Result A → (A → Result B) → Result B
and_then (ok value) rest = rest value
and_then (err failure) rest = err failure

-- The fields of a reply as a VM; `vmid` stands in where the reply has none. Uptime is in seconds.
unfoldable pub vm_of : Str → ℕ → Fields → Result Vm
unfolding as_number as_int as_upid split_tags value_at
vm_of node vmid fs = and_then (as_number (value_at (lit "vmid") fs)) (λ id.
    and_then (as_upid (value_at (lit "name") fs)) (λ name.
      and_then (as_upid (value_at (lit "status") fs)) (λ status.
        and_then (as_int (value_at (lit "cpus") fs)) (λ cores.
          and_then (as_int (value_at (lit "maxmem") fs)) (λ memory.
            and_then (as_upid (value_at (lit "tags") fs)) (λ tags.
              and_then (as_int (value_at (lit "uptime") fs)) (λ uptime. ok (record {
                vmid = if id == 0 then vmid else id;
                name = name;
                node = node;
                status = status;
                cores = cores;
                memory = memory / (1024 * 1024);
                tags = split_tags tags;
                uptime = uptime;
              }))))))))

unfoldable pub as_vm : Str → ℕ → Value → Result Vm
unfolding vm_of
as_vm node vmid null = vm_of node vmid end
as_vm node vmid (mapping fs) = vm_of node vmid fs
as_vm node vmid (bool b) = err (errorf "proxmox: decode data: %w" [])
as_vm node vmid (int n) = err (errorf "proxmox: decode data: %w" [])
as_vm node vmid (string s) = err (errorf "proxmox: decode data: %w" [])
as_vm node vmid (slice xs) = err (errorf "proxmox: decode data: %w" [])

unfoldable pub get_vm : Str → ℕ → Action Vm
unfolding call vm_path missing_as as_vm
get_vm node vmid = do
  v ←
      changing (missing_as vm_not_found)
        (call get (vm_path node vmid ++ lit "/status/current") no_body)
  return (as_vm node vmid v)

-- errors.Is(err, ErrVMNotFound), for an error that GetVM returns
unfoldable pub is_vm_not_found : Error → Bool
is_vm_not_found e = elim e [ vm_not_found ↦ true | _ ↦ false ]

unfoldable pub existence : Result Vm → Result Bool
unfolding is_vm_not_found
existence (ok vm) = ok true
existence (err e) = if is_vm_not_found e then ok false else err e

unfoldable pub vm_exists : Str → ℕ → Action Bool
unfolding get_vm existence
vm_exists node vmid host hist = let (r, hist') = get_vm node vmid host hist in (existence r, hist')
