-- ===== src/Kickstart/Renderer/Entry.antt =====
-- Which template Render executes, and that it is RenderTemplate for this one.
use mathlib.Core.Path.{subst}
use proxclt.Base.{
  Str, is_empty, ◌≡◌, refl, ap, ◌∙◌, true, false, inl, inr, some, Option-cases, List, [], ◌∷◌, ◌++◌,
  All, All-append_right,
}
use proxclt.Config.Model.{lookup, Env, Hypervisor, KickstartConfig, resolved}
use proxclt.Kickstart.Renderer.{
  Renderer, Template, has_template, first_template, candidates, pick_entry, render, render_template,
  render_context, template_context,
}

-- The entry is the first of the candidates that the set has.
pub record IsEntry (names : List Str) (entry : Str) : Type 0 where
  pub before : List Str
  pub after : List Str
  pub whole : candidates ≡ before ++ entry ∷ after
  pub missing : All (λ c. has_template names c ≡ false) before
  pub present : has_template names entry ≡ true

first_template-found :
    (names before : List Str) (entry : Str) (after : List Str)
    → All (λ c. has_template names c ≡ false) before
    → has_template names entry ≡ true
    → first_template names (before ++ entry ∷ after) ≡ entry
unfolding first_template
first_template-found names [] entry after m p = rw p refl
first_template-found names (c ∷ before) entry after m p =
    rw (m.0) (first_template-found names before entry after m.1 p)

candidates-Named : All (λ c. is_empty c ≡ false) candidates
unfolding candidates is_empty
candidates-Named = (refl, (refl, (refl, (refl, (refl, (refl, tt))))))

IsEntry-Named : (names : List Str) (entry : Str) → IsEntry names entry → is_empty entry ≡ false
IsEntry-Named names entry p =
    (All-append_right (λ c. is_empty c ≡ false) p.before (entry ∷ p.after)
      (subst (All (λ c. is_empty c ≡ false)) p.whole candidates-Named)).0

pick_entry-IsEntry : (t : Template) (entry : Str) → IsEntry t.names entry → pick_entry t ≡ entry
unfolding pick_entry
pick_entry-IsEntry t entry p =
    ap (first_template t.names) p.whole
    ∙ first_template-found t.names p.before entry p.after p.missing p.present

-- Where the env has a hypervisor with a kickstart configuration whose distro is named and bundled, and an
-- entry is the first of the six candidates that the templates of the distro have, Render does for every node
-- name, a missing node included, what RenderTemplate does with this entry.
pub render-eq-render_template :
    (r : Renderer) (env : Env) (hyp : Hypervisor) (ks : KickstartConfig) (t : Template)
    (entry name : Str)
    → resolved env.spec.hypervisor ≡ some hyp
    → hyp.kickstart ≡ some ks
    → is_empty ks.distro ≡ false
    → lookup ks.distro r.entries ≡ some t
    → IsEntry t.names entry
    → render r (some env) name ≡ render_template r (some env) name entry
unfolding render render_template render_context template_context
render-eq-render_template r env hyp ks t entry name eh ek ed et p =
    elim (Option-cases (lookup name hyp.nodes)) [
      | inl missing ↦ simp (eh, missing)
      | inr (node, found) ↦ simp (
        eh,
        found,
        ek,
        ed,
        et,
        pick_entry-IsEntry t entry p,
        IsEntry-Named t.names entry p,
        p.present,
      )
    ]
