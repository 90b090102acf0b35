-- ===== src/Config/Validate/Whole.antt =====
-- What Validate of pkg/config/validators.go accepts as a whole.
use proxclt.Base.{some, List, [], Error, Result, ok, err, joined, joined-ok, ◌>>◌, ◌≡◌, ◌↔◌, refl}
use proxclt.Config.Model.{Env}
use proxclt.Config.Validators.{
  validate_uniqueness, validate_rac_invariants, validate_nic_network_refs,
  validate_disk_storage_refs,
}
use proxclt.Config.Validate.{
  StructTags, check_tags, validate, validate_disk_tag_refs, note, rule_errors,
}

-- All five cross-field rules accept the manifest.
pub record MeetsRules (env : Env) : Type 0 where
  pub unique : validate_uniqueness env ≡ ok tt
  pub rac : validate_rac_invariants env ≡ ok tt
  pub networks : validate_nic_network_refs env ≡ ok tt
  pub storage : validate_disk_storage_refs env ≡ ok tt
  pub tags : validate_disk_tag_refs env ≡ ok tt

note-nil :
    (r : Result (Unit {0})) (errs : List Error) → note r errs ≡ [] → (r ≡ ok tt) × (errs ≡ [])
note-nil (ok u) errs h = (refl, h)
note-nil (err e) errs h = cc

rule_errors-nil : (env : Env) → rule_errors env ≡ [] → MeetsRules env
unfolding rule_errors
rule_errors-nil env h =
    let (a, h₁) = note-nil (validate_uniqueness env) _ h in
    let (b, h₂) = note-nil (validate_rac_invariants env) _ h₁ in
    let (c, h₃) = note-nil (validate_nic_network_refs env) _ h₂ in
    let (d, h₄) = note-nil (validate_disk_storage_refs env) _ h₃ in
    let (e, h₅) = note-nil (validate_disk_tag_refs env) [] h₄ in
    record { unique = a; rac = b; networks = c; storage = d; tags = e }

MeetsRules-rule_errors : (env : Env) → MeetsRules env → rule_errors env ≡ []
unfolding rule_errors
MeetsRules-rule_errors env m = rw (m.unique, m.rac, m.networks, m.storage, m.tags)

>>-ok : (m k : Result (Unit {0})) → (m >> k) ≡ ok tt → (m ≡ ok tt) × (k ≡ ok tt)
>>-ok (ok u) k h = (refl, h)
>>-ok (err e) k h = cc

-- Validate accepts a manifest exactly if the struct tags of it and of its resolved parts hold and
-- all five cross-field rules accept it.
pub validate_iff :
    (v : StructTags) (env : Env)
    → (validate v (some env) ≡ ok tt) ↔ ((check_tags v env ≡ ok tt) × MeetsRules env)
unfolding validate
validate_iff v env = (
  λ h.
      let (tags, rules) = >>-ok (check_tags v env) (joined (rule_errors env)) h in
      (tags, rule_errors-nil env (joined-ok (rule_errors env) rules)),
  λ h. rw h.0 (rw (MeetsRules-rule_errors env h.1) (unfold joined in refl)),
)
