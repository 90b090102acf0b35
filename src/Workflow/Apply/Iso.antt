-- ===== src/Workflow/Apply/Iso.antt =====
-- The names under which Apply of pkg/workflow/single_vm.go uploads and attaches the kickstart ISO.
use proxclt.Base.{◌+◌, Str, lit, concat, length, length-append, [], ◌∷◌, ◌≡◌, ◌≢◌, ap, arith}
use proxclt.Workflow.Apply.{upload_name, kickstart_volid}

-- The volume id that a storage gives to an uploaded ISO of this name.
unfoldable pub uploaded_volid : Str → Str → Str
uploaded_volid storage name = concat (storage ∷ lit ":iso/" ∷ name ∷ [])

uploaded-length : (s n : Str) → length (uploaded_volid s (upload_name n)) ≡ length s + length n + 17
unfolding uploaded_volid upload_name concat lit
uploaded-length s n =
    rw length-append
      (rw length-append (rw length-append (rw length-append (rw length-append (omega arith)))))

attached-length : (s n : Str) → length (kickstart_volid s n) ≡ length s + length n + 19
unfolding kickstart_volid concat lit
attached-length s n = rw length-append (rw length-append (rw length-append (omega arith)))

-- For every storage and node, the volume that the upload step creates is not the volume that the
-- next steps look for and attach: the uploaded ISO has another file name.
pub upload-not_attached :
    (storage node : Str) → uploaded_volid storage (upload_name node) ≢ kickstart_volid storage node
upload-not_attached s n h =
    let p = ap length h in omega (arith, uploaded-length s n, attached-length s n)
