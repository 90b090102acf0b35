-- ===== src/Proxmox/Storage.antt =====
-- pkg/proxmox/storage.go: the contents of a storage and the upload of an ISO.
use proxclt.Base.{
  refuse_if, ℕ, zero, suc, Str, lit, concat, str_eq, is_empty, trim_right_byte, last_index, Bool,
  false, ◌||◌, if◌then◌else◌, Option, none, some, List, [], ◌∷◌, errorf, wrapf, storage_not_found,
  Result, ok, err,
}
use proxclt.Config.Model.{Value, Items, null, bool, int, string, slice, mapping, nil, cons}
use proxclt.Config.Validate.{value_at}
use proxclt.World.{get, post, no_body, multipart, Action, return, ◌>>=◌, ◌>>◌, failing_as, no_error}
use proxclt.Proxmox.Client.{call, as_upid, submit_existing}

abbrev volid_of : Value → Result Str
volid_of v = elim v [
  | mapping fs ↦ as_upid (value_at (lit "volid") fs)
  | null ↦ ok []
  | bool b ↦ err (errorf "proxmox: decode data: %w" [])
  | int n ↦ err (errorf "proxmox: decode data: %w" [])
  | string s ↦ err (errorf "proxmox: decode data: %w" [])
  | slice xs ↦ err (errorf "proxmox: decode data: %w" [])
]

unfoldable pub consed : Result Str → Result (List Str) → Result (List Str)
consed (ok v) (ok vs) = ok (v ∷ vs)
consed (ok v) (err e) = err e
consed (err e) vs = err e

-- json.Unmarshal of a content listing: its volume ids.
unfoldable pub volids : Items → Result (List Str)
unfolding as_upid value_at consed
volids nil = ok []
volids (cons v rest) = consed (volid_of v) (volids rest)

unfoldable pub as_listing : Value → Result (List Str)
unfolding volids
as_listing (slice xs) = volids xs
as_listing null = ok []
as_listing (bool b) = err (errorf "proxmox: decode data: %w" [])
as_listing (int n) = err (errorf "proxmox: decode data: %w" [])
as_listing (string s) = err (errorf "proxmox: decode data: %w" [])
as_listing (mapping fs) = err (errorf "proxmox: decode data: %w" [])

unfoldable pub listed : Str → List Str → Bool
listed volid [] = false
listed volid (v ∷ vs) = str_eq v volid || listed volid vs

unfoldable pub storage_content_exists : Str → Str → Str → Action Bool
unfolding call as_listing listed
storage_content_exists node storage volid = do
  v ←
      call get (concat (lit "/nodes/" ∷ node ∷ lit "/storage/" ∷ storage ∷ lit "/content" ∷ []))
        no_body
  vols ← return (as_listing v)
  return (ok (listed volid vols))

unfoldable pub drop_to : ℕ → Str → Str
drop_to i [] = []
drop_to zero (a ∷ s) = s
drop_to (suc i) (a ∷ s) = drop_to i s

abbrev after_slash : Str → Option ℕ → Str
after_slash p none = p
after_slash p (some i) = drop_to i p

unfoldable pub base_name : Str → Str
unfolding drop_to last_index trim_right_byte
base_name p = let q = trim_right_byte 47 p in after_slash q (last_index q 47)

abbrev open_iso : Str → Action (Unit {0})
open_iso path host hist =
    (failing_as (wrapf "proxmox: open iso: %w" []) (no_error (host.open_file path)), hist)

-- The reads of the open file and the multipart writer's buffer are not modelled to fail.
unfoldable pub upload_iso : Str → Str → Str → Str → Action (Unit {0})
unfolding base_name submit_existing
upload_iso node storage local_path remote_name = do
  return (refuse_if (is_empty local_path) (errorf "proxmox: localPath required" []))
  open_iso local_path
  submit_existing storage_not_found post node
      (concat (lit "/nodes/" ∷ node ∷ lit "/storage/" ∷ storage ∷ lit "/upload" ∷ []))
      (multipart local_path (if is_empty remote_name then base_name local_path else remote_name))
