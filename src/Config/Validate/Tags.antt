-- ===== src/Config/Validate/Tags.antt =====
-- The rule of pkg/config/validators.go on the disk tags that the linux layout refers to.
use proxclt.Base.{
  ℕ, ◌+◌, Str, str_eq, str_eq_iff, is_empty, is_empty_iff, Bool, true, false, ◌||◌, some, List, [],
  ◌∷◌, ◌++◌, Any, Any-uncons, here, there, ok, ◌≡◌, ◌≢◌, ◌↔◌, ◌⊎◌, inl, inr, refl, sym, ◌∙◌, arith,
  Bool-cases,
}
use proxclt.Config.Model.{
  Dict, Disk, Node, Hypervisor, Value, Items, nil, cons, Linux, resolved, resolved_at, Env,
}
use proxclt.Config.Validate.{
  disk_tags, node_tags, has_tag, entry_tag, check_entries, additional, validate_disk_tag_refs,
}

-- Some disk of some node has the tag.
abbrev pub Tagged : Dict Node → Str → Type 0
Tagged nodes t = Any (λ n. Any (λ (d : Disk). d.tag ≡ t) n.1.disks) nodes

-- Every entry of the list satisfies the predicate.
abbrev pub EachItem : (Value → Type 0) → Items → Type 0
EachItem P nil = Unit
EachItem P (cons v rest) = P v × EachItem P rest

has_tag-append :
    (t : Str) (xs ys : List Str) → has_tag t (xs ++ ys) ≡ (has_tag t xs || has_tag t ys)
unfolding has_tag
has_tag-append t [] ys = refl
has_tag-append t (x ∷ xs) ys = ground (arith, has_tag-append t xs ys)

or_iff : (a b : Bool) → ((a || b) ≡ true) ↔ ((a ≡ true) ⊎ (b ≡ true))
or_iff a b = (λ h. split a h, λ h. ground arith)
  where
    split : (x : Bool) → (x || b) ≡ true → (x ≡ true) ⊎ (b ≡ true)
    split true h = inl refl
    split false h = inr h

module _ (t : Str) (named : t ≢ []) where
  disk_tags_iff :
      (disks : List Disk)
      → (has_tag t (disk_tags disks) ≡ true) ↔ Any (λ (d : Disk). d.tag ≡ t) disks
  unfolding has_tag disk_tags
  disk_tags_iff [] = (λ h. cc, λ h. elim h [ ])
  disk_tags_iff (d ∷ rest) =
      let ih = disk_tags_iff rest in
      let at = str_eq_iff d.tag t in
      elim (Bool-cases (is_empty d.tag)) [
        | inl untagged ↦ (
          λ h. there (ih.0 (rw (untagged, disk_tags) at h)),
          λ a. elim (Any-uncons a) [
            | inl e ↦ absurd (named (sym e ∙ (is_empty_iff d.tag).0 untagged))
            | inr later ↦ rw (untagged, disk_tags) (ih.1 later)
          ],
        )
        | inr tagged ↦ (
          λ h.
              elim ((or_iff (str_eq d.tag t) (has_tag t (disk_tags rest))).0
                (rw (tagged, disk_tags) at h)) [
                  | inl e ↦ here (at.0 e)
                  | inr later ↦ there (ih.0 later)
                ],
          λ a.
              rw (tagged, disk_tags)
                ((or_iff (str_eq d.tag t) (has_tag t (disk_tags rest))).1
                  (elim (Any-uncons a) [ inl e ↦ inl (at.1 e) | inr later ↦ inr (ih.1 later) ])),
        )
      ]

  node_tags_iff : (nodes : Dict Node) → (has_tag t (node_tags nodes) ≡ true) ↔ Tagged nodes t
  unfolding node_tags
  node_tags_iff [] = (λ h. unfold has_tag in cc h, λ h. elim h [ ])
  node_tags_iff ((name, node) ∷ rest) =
      let ih = node_tags_iff rest in
      let one = disk_tags_iff node.disks in
      let both = or_iff (has_tag t (disk_tags node.disks)) (has_tag t (node_tags rest)) in
      let split = has_tag-append t (disk_tags node.disks) (node_tags rest) in
      (
        λ h. elim (both.0 (sym split ∙ h)) [
          | inl e ↦ here (one.0 e)
          | inr later ↦ there (ih.0 later)
        ],
        λ a.
            split
            ∙ both.1 (elim (Any-uncons a) [ inl e ↦ inl (one.1 e) | inr later ↦ inr (ih.1 later) ]),
      )

check_entries_iff :
    (nodes : Dict Node) (i : ℕ) (entries : Items)
    → (check_entries (node_tags nodes) i entries ≡ ok tt)
      ↔ EachItem (λ v. (entry_tag v ≡ []) ⊎ Tagged nodes (entry_tag v)) entries
unfolding check_entries
check_entries_iff nodes i nil = (λ _. tt, λ _. refl)
check_entries_iff nodes i (cons v rest) =
    let ih = check_entries_iff nodes (i + 1) rest in
    let named = is_empty_iff (entry_tag v) in
    elim (Bool-cases (is_empty (entry_tag v))) [
      | inl untagged ↦
          (λ h. (inl (named.0 untagged), ih.0 (rw untagged at h)), λ h. rw untagged (ih.1 h.1))
      | inr tagged ↦
          let ne : entry_tag v ≢ [] = λ e. cc (named.1 e, tagged) in
          let tags = node_tags_iff (entry_tag v) ne nodes in
          elim (Bool-cases (has_tag (entry_tag v) (node_tags nodes))) [
            | inl known ↦ (
              λ h. (inr (tags.0 known), ih.0 (rw (tagged, known) at h)),
              λ h. rw (tagged, known) (ih.1 h.1),
            )
            | inr unknown ↦ (
              λ h. cc (rw (tagged, unknown) at h),
              λ h. elim h.0 [ inl e ↦ absurd (ne e) | inr a ↦ cc (tags.1 a, unknown) ],
            )
          ]
    ]

-- Where the linux layout lists additional disks and the hypervisor is resolved, the rule accepts
-- exactly the manifests in which every entry names no tag or the tag of some disk of some node.
pub validate_disk_tag_refs_iff :
    (env : Env) (l : Linux) (entries : Items) (h : Hypervisor)
    → resolved_at env.spec.linux ≡ some l
    → additional l ≡ some entries
    → resolved env.spec.hypervisor ≡ some h
    → (validate_disk_tag_refs env ≡ ok tt)
      ↔ EachItem (λ v. (entry_tag v ≡ []) ⊎ Tagged h.nodes (entry_tag v)) entries
unfolding validate_disk_tag_refs
validate_disk_tag_refs_iff env l entries h e f g =
    rw (e, validate_disk_tag_refs, f, g) (check_entries_iff h.nodes 0 entries)
