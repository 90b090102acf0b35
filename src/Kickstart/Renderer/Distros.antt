-- ===== src/Kickstart/Renderer/Distros.antt =====
-- The distros that a loaded renderer reports.
use mathlib.Core.List.{Perm, map-append}
use mathlib.Core.Path.{subst}
use proxclt.Base.{
  IsSorted, sort_strings, sort_strings-perm, sort_strings-IsSorted, Str, ◌≡◌, refl, sym, true,
  false, Bool, Bool-cases, inl, inr, List, [], ◌∷◌, ◌++◌, map, ok, ok-injective, wrap, ◌>>=◌, lit,
  str_eq, >>=-ok,
}
use proxclt.Config.Model.{Dict}
use proxclt.Kickstart.Renderer.{
  Renderer, Template, TemplateFiles, new_renderer_from_fs, supported_distros, load_entries,
  load_entry, add_distro, parse_common, new_template, found_files, empty_renderer,
}

abbrev pub keys : Dict Template → List Str
keys m = map (λ e. e.0) m

-- The list of distros names the entries, in the order in which they were loaded.
abbrev IsLoaded : Renderer → Type 0
IsLoaded r = r.distros ≡ keys r.entries

keys-append : (m n : Dict Template) → keys (m ++ n) ≡ keys m ++ keys n
keys-append m n = map-append (λ e. e.0) m n

add_distro-IsLoaded :
    (fs : TemplateFiles) (common : List Str) (distro : Str) (files : List Str) (r : Renderer)
    {after : Renderer}
    → IsLoaded r
    → add_distro fs common distro files r ≡ ok after
    → IsLoaded after
unfolding add_distro
add_distro-IsLoaded fs common distro [] r loaded h = subst IsLoaded (ok-injective h) loaded
add_distro-IsLoaded fs common distro (f ∷ files) r {after} loaded h =
    let (base, e, g) = >>=-ok (parse_common fs common new_template) _ h in
    let (t, e', g') =
      >>=-ok (wrap "parse distro %s: %w" (distro ∷ []) (fs.parse (f ∷ files) base)) _ g in
    subst IsLoaded (ok-injective g') (rw loaded (sym (keys-append r.entries ((distro, t) ∷ []))))

load_entry-IsLoaded :
    (fs : TemplateFiles) (common : List Str) (entry : Str × Bool) (r : Renderer) {after : Renderer}
    → IsLoaded r
    → load_entry fs common entry r ≡ ok after
    → IsLoaded after
unfolding load_entry
load_entry-IsLoaded fs common (name, false) r loaded h = subst IsLoaded (ok-injective h) loaded
load_entry-IsLoaded fs common (name, true) r {after} loaded h =
    elim (Bool-cases (str_eq name (lit "common"))) [
      | inl skip ↦
          let g : ok r ≡ ok after = rw (skip, load_entry) at h in
          subst IsLoaded (ok-injective g) loaded
      | inr other ↦
          let g : (fs.glob (lit "templates/" ++ name ++ lit "/*.tmpl") >>= λ files.
          add_distro fs common name files r)
              ≡ ok after =
            rw (other, load_entry) at h in
          let (files, e, added) =
            >>=-ok (fs.glob (lit "templates/" ++ name ++ lit "/*.tmpl")) _ g in
          add_distro-IsLoaded fs common name files r loaded added
    ]

load_entries-IsLoaded :
    (fs : TemplateFiles) (common : List Str) (dir : List (Str × Bool)) (r : Renderer)
    {after : Renderer}
    → IsLoaded r
    → load_entries fs common dir r ≡ ok after
    → IsLoaded after
unfolding load_entries
load_entries-IsLoaded fs common [] r loaded h = subst IsLoaded (ok-injective h) loaded
load_entries-IsLoaded fs common (e ∷ rest) r loaded h =
    let (next, f, g) = >>=-ok (load_entry fs common e r) _ h in
    load_entries-IsLoaded fs common rest next (load_entry-IsLoaded fs common e r loaded f) g

-- A renderer that was loaded reports the distros in sorted order, and they are exactly the keys of
-- its templates, each as often.
pub supported_distros-perm :
    (fs : TemplateFiles) (r : Renderer)
    → new_renderer_from_fs fs ≡ ok r
    → IsSorted (supported_distros r) × Perm (supported_distros r) (keys r.entries)
unfolding new_renderer_from_fs supported_distros
supported_distros-perm fs r h =
    let (dir, e, g) = >>=-ok (wrap "read templates dir: %w" [] fs.read_dir) _ h in
    let (loaded, f, k) =
      >>=-ok
        (load_entries fs (found_files (fs.glob (lit "templates/common/*.tmpl"))) dir empty_renderer)
        _ g in
    let same = load_entries-IsLoaded fs _ dir empty_renderer refl f in
    subst (λ z. IsSorted z.distros × Perm z.distros (keys z.entries)) (ok-injective k)
      (
        sort_strings-IsSorted loaded.distros,
        subst (Perm (sort_strings loaded.distros)) same (sort_strings-perm loaded.distros),
      )
