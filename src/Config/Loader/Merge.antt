-- ===== src/Config/Loader/Merge.antt =====
-- mergeEnv of pkg/config/loader.go.
use proxclt.Base.{Str, is_empty, if◌then◌else◌, Option, none, some, [], ◌∷◌, ◌≡◌, refl}
use proxclt.Config.Model.{Cluster, Ref, Env}
use proxclt.Config.Loader.{merge_type, merge_cluster, merge_env}

kept :
    (own base : Str)
    → (if is_empty (if is_empty own then base else own)
        then base
        else (if is_empty own then base else own))
      ≡ (if is_empty own then base else own)
unfolding is_empty
kept [] [] = refl
kept [] (b ∷ base) = refl
kept (a ∷ own) base = refl

merge_type-twice : (c b : Option Cluster) → merge_type (merge_type c b) b ≡ merge_type c b
unfolding merge_type
merge_type-twice none b = refl
merge_type-twice (some c) none = refl
merge_type-twice (some c) (some b) = rw (kept c.type b.type) refl

same : (s : Str) → (if is_empty s then s else s) ≡ s
unfolding is_empty
same [] = refl
same (a ∷ s) = refl

merge_type_self : (c : Option Cluster) → merge_type c c ≡ c
unfolding merge_type
merge_type_self none = refl
merge_type_self (some c) = rw (same c.type) refl

merge_cluster-twice :
    (c b : Option (Ref Cluster)) → merge_cluster (merge_cluster c b) b ≡ merge_cluster c b
unfolding merge_cluster
merge_cluster-twice none none = refl
merge_cluster-twice none (some b) = rw (merge_type_self b.inline) refl
merge_cluster-twice (some c) none = refl
merge_cluster-twice (some c) (some b) = rw (merge_type-twice c.inline b.inline) refl

-- Merging a profile a second time changes nothing: the first merge leaves no field to fill in.
pub merge_env-twice : (dst base : Env) → merge_env (merge_env dst base) base ≡ merge_env dst base
unfolding merge_env
merge_env-twice dst base =
    rw
      (
        kept dst.version base.version,
        kept dst.kind base.kind,
        kept dst.metadata.description base.metadata.description,
        merge_cluster-twice dst.spec.cluster base.spec.cluster,
      )
      refl
