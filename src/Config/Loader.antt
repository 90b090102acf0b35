-- ===== src/Config/Loader.antt =====
-- pkg/config/loader.go: the merge of a profile, the references to other files, and LoadWithOptions.
-- YAML decoding, the embedded profiles and the expansion of placeholders are given functions.
pub mod Refs
pub mod Merge
use mathlib.Core.List.{reverse}
use proxclt.Base.{
  ℕ, ◌+◌, Str, String, lit, itoa, str_eq, is_empty, has_prefix, split, join, Bool, true, false,
  ◌||◌, if◌then◌else◌, Option, none, some, List, [], ◌∷◌, ◌++◌, Error, errorf, wrapf, Result, ok,
  err, ◌>>=◌, ◌>>◌, wrap, joined,
}
use proxclt.Config.Model.{
  Hypervisor, Networks, StorageClasses, Linux, Cluster, Database, Ref, EnvMetadata, EnvSpec, Env,
}
use proxclt.Config.Validators.{has_name}

unfoldable pub parent_of : List Str → List Str
parent_of [] = []
parent_of (p ∷ ps) = ps

-- The elements of an absolute path without `.` and `..`; `up` holds the ones read, the last first.
unfoldable pub clean_from : List Str → List Str → List Str
unfolding parent_of
clean_from up [] = reverse up
clean_from up (p ∷ ps) =
    clean_from
      (if is_empty p || str_eq p (lit ".")
        then up
        else if str_eq p (lit "..")
        then parent_of up
        else p ∷ up)
      ps

-- filepath.Clean of an absolute path
unfoldable pub clean : Str → Str
unfolding clean_from
clean p = lit "/" ++ join (lit "/") (clean_from [] (split 47 p))

-- The path of the file that a reference names; `base` is the directory of the manifest.
unfoldable pub locate : Str → Str → Str
unfolding clean
locate base ref = clean (if has_prefix ref (lit "/") then ref else base ++ lit "/" ++ ref)

-- A reference that names no file: what it holds inline is copied.
unfoldable pub copy_inline : {A : Type 0} → Ref A → Ref A
copy_inline r = elim r.value [ some v ↦ r | none ↦ record r { value = r.inline } ]

-- A reference with the paths that were read so far.
abbrev pub Resolving : Type 0 → Type 0
Resolving A = A × List Str

-- The read and the decoding of the file at a path.
unfoldable pub read_at : {A : Type 0} → (Str → Result Str) → (Str → Result A) → Str → Result A
read_at read decode path = do
  b ← wrap "read %q: %w" (path ∷ []) (read path)
  wrap "parse %q: %w" (path ∷ []) (decode b)

unfoldable pub resolve_ref :
    {A : Type 0}
    → (Str → Result Str)
    → (Str → Result A)
    → Str
    → Ref A
    → List Str
    → Result (Resolving (Ref A))
unfolding copy_inline locate read_at
resolve_ref read decode base r seen =
    if is_empty r.ref
    then ok (copy_inline r, seen)
    else if has_name (locate base r.ref) seen
    then err (errorf "circular $ref: %s" (locate base r.ref ∷ []))
    else (do
      t ← read_at read decode (locate base r.ref)
      ok (record r { value = some t }, locate base r.ref ∷ seen))

-- yaml.Unmarshal into each of the types.
pub record Decoders : Type 0 where
  pub env : Str → Result Env
  pub hypervisor : Str → Result Hypervisor
  pub networks : Str → Result Networks
  pub storage_classes : Str → Result StorageClasses
  pub linux : Str → Result Linux
  pub cluster : Str → Result Cluster
  pub database : Str → Result Database

unfoldable pub resolve_at :
    {A : Type 0}
    → (Str → Result Str)
    → (Str → Result A)
    → Str
    → Option (Ref A)
    → List Str
    → Result (Resolving (Option (Ref A)))
unfolding resolve_ref
resolve_at read decode base none seen = ok (none, seen)
resolve_at read decode base (some r) seen = do
  p ← resolve_ref read decode base r seen
  ok (some p.0, p.1)

unfoldable pub resolve_all :
    {A : Type 0}
    → (Str → Result Str)
    → (Str → Result A)
    → Str
    → ℕ
    → List (Ref A)
    → List Str
    → Result (Resolving (List (Ref A)))
unfolding resolve_ref
resolve_all read decode base i [] seen = ok ([], seen)
resolve_all read decode base i (r ∷ rest) seen = do
  p ← wrap "resolve databases[%d]: %w" (itoa i ∷ []) (resolve_ref read decode base r seen)
  q ← resolve_all read decode base (i + 1) rest p.1
  ok (p.0 ∷ q.0, q.1)

unfoldable pub resolve_refs :
    (Str → Result Str) → Decoders → Str → EnvSpec → List Str → Result (Resolving EnvSpec)
unfolding resolve_ref resolve_at resolve_all
resolve_refs read d base spec seen = do
  h ← wrap "resolve hypervisor: %w" [] (resolve_ref read d.hypervisor base spec.hypervisor seen)
  n ← wrap "resolve networks: %w" [] (resolve_ref read d.networks base spec.networks h.1)
  s ←
      wrap "resolve storage_classes: %w" []
        (resolve_ref read d.storage_classes base spec.storage_classes n.1)
  l ← wrap "resolve linux: %w" [] (resolve_at read d.linux base spec.linux s.1)
  c ← wrap "resolve cluster: %w" [] (resolve_at read d.cluster base spec.cluster l.1)
  db ← resolve_all read d.database base 0 spec.databases c.1
  ok (
    record {
      hypervisor = h.0;
      linux = l.0;
      networks = n.0;
      storage_classes = s.0;
      cluster = c.0;
      databases = db.0;
    },
    db.1,
  )

abbrev or_from : Str → Str → Str
or_from own base = if is_empty own then base else own

-- The type of an inline cluster, filled in from the profile's.
unfoldable pub merge_type : Option Cluster → Option Cluster → Option Cluster
merge_type (some c) (some b) = some (record c { type = or_from c.type b.type })
merge_type (some c) none = some c
merge_type none b = none

unfoldable pub merge_cluster : Option (Ref Cluster) → Option (Ref Cluster) → Option (Ref Cluster)
unfolding merge_type
merge_cluster none b = b
merge_cluster (some c) none = some c
merge_cluster (some c) (some b) = some (record c { inline = merge_type c.inline b.inline })

unfoldable pub merge_env : Env → Env → Env
unfolding merge_cluster
merge_env dst base = record dst {
  version = or_from dst.version base.version;
  kind = or_from dst.kind base.kind;
  metadata = record dst.metadata {
    description = or_from dst.metadata.description base.metadata.description;
  };
  spec = record dst.spec { cluster = merge_cluster dst.spec.cluster base.spec.cluster };
}

unfoldable pub read_env : (Str → Result Str) → Decoders → Str → Result Env
unfolding read_at
read_env read d path = read_at read d.env path

-- `profile` is LoadProfile.
unfoldable pub apply_profile : (Str → Result Str) → Decoders → Env → Result Env
unfolding merge_env
apply_profile profile d env = do
  raw ← profile env.extends
  base ← wrap "parse profile %q: %w" (env.extends ∷ []) (d.env raw)
  ok (merge_env env base)

unfoldable pub with_profile : (Str → Result Str) → Decoders → Env → Result Env
unfolding apply_profile
with_profile profile d env =
    if is_empty env.extends
    then ok env
    else wrap "apply profile %q: %w" (env.extends ∷ []) (apply_profile profile d env)

-- What LoadWithOptions calls: the files, the embedded profiles, the expansion of placeholders, and
-- Validate, each of which an option may leave out.
pub record Loading : Type 0 where
  pub read : Str → Result Str
  pub profile : Str → Result Str
  pub decoders : Decoders
  pub expand : Option (Env → Result Env)
  pub check : Option (Env → Result (Unit {0}))

abbrev expanded : Option (Env → Result Env) → Env → Result Env
expanded none env = ok env
expanded (some f) env = f env

abbrev checked : Option (Env → Result (Unit {0})) → Env → Result (Unit {0})
checked none env = ok tt
checked (some f) env = f env

-- `path` is absolute, `base` its directory.
unfoldable pub load_with_options : Loading → Str → Str → Result Env
unfolding read_env with_profile resolve_refs
load_with_options l path base = do
  env ← read_env l.read l.decoders path
  merged ← with_profile l.profile l.decoders env
  refs ← resolve_refs l.read l.decoders base merged.spec (path ∷ [])
  full ← expanded l.expand (record merged { spec = refs.0 })
  checked l.check full
  ok full
