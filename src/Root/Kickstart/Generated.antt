-- ===== src/Root/Kickstart/Generated.antt =====
-- The files that `kickstart generate` of internal/root/kickstart.go writes.
use mathlib.Core.List.{append_cancel_right}
use mathlib.Core.Path.{subst}
use proxclt.Base.{
  Str, lit, str_eq_iff, str_eq, is_empty, Bool-cases, true, if◌then◌else◌, Option, none, some, List,
  [], ◌∷◌, ◌++◌, All, wrapf, Error, ok, ◌≡◌, inl, inr, sym, ap, ◌∙◌,
}
use proxclt.Config.Model.{Dict, Env, lookup}
use proxclt.Kickstart.Renderer.{TemplateFiles, Renderer, new_renderer_from_fs, render}
use proxclt.Kickstart.Disk.{
  Machine, DiskState, File, next, told, next-ok, told-ok, result_of, disk_of, join_path, put_file,
  store, stored, write_file, write_refusal,
}
use proxclt.Kickstart.Disk.Paths.{
  lookup-put_file, lookup-put_file_same, is_name, join_path-injective,
}
use proxclt.Root.Process.{Process, load_env_manifest}
use proxclt.Root.Kickstart.{write_kickstarts, generate_nodes, make_dir, kickstart_generate}

abbrev written : Str → File
written text = record { content = text; writable = true }

stored-ok :
    (d last : DiskState) (path : Str) (f : File) (refusal : Option Error)
    → stored d path f refusal ≡ (ok tt, last)
    → last ≡ record d { files = put_file path f d.files }
stored-ok d last path f (some e) h = cc (ap result_of h)
stored-ok d last path f none h = sym (ap disk_of h)

-- Where a write succeeds, the file is what was written and the others are what they were.
write_file-ok :
    (path text : Str) (m : Machine) (d last : DiskState)
    → write_file path text m d ≡ (ok tt, last)
    → last ≡ record d { files = put_file path (written text) d.files }
unfolding write_file store
write_file-ok path text m d last h =
    stored-ok d last path (written text) (write_refusal m path (lookup path d.files)) h

module _ (r : Renderer) (env : Env) (dir : Str) where
  abbrev ks_file : Str → Str
  ks_file n = join_path dir (n ++ lit ".ks")

  -- The file of a node holds its kickstart.
  abbrev pub Holds : Dict File → Str → Type 0
  Holds files n =
      (content : Str) × (render r (some env) n ≡ ok content)
      × (lookup (ks_file n) files ≡ some (written content))

  abbrev pub IsNode : Str → Type 0
  IsNode n = is_name (n ++ lit ".ks") ≡ true

  same_node : (n other : Str) → IsNode n → IsNode other → ks_file n ≡ ks_file other → n ≡ other
  same_node n other hn ho e =
      append_cancel_right n other (lit ".ks") (join_path-injective dir hn ho e)

  -- A kickstart that is written leaves those that are there.
  put_file-Holds :
      (n other content : Str) (files : Dict File)
      → IsNode n
      → IsNode other
      → render r (some env) other ≡ ok content
      → Holds files n
      → Holds (put_file (ks_file other) (written content) files) n
  put_file-Holds n other content files hn ho e (c, made, there_now) =
      elim (Bool-cases (str_eq n other)) [
        | inl s ↦
            let same = (str_eq_iff n other).0 s in
            (
              content,
              ap (render r (some env)) same ∙ e,
              ap (λ k. lookup (ks_file k) (put_file (ks_file other) (written content) files)) same
                  ∙ lookup-put_file_same (ks_file other) (written content) files,
            )
        | inr s ↦ (
          c,
          made,
          lookup-put_file (ks_file n) (ks_file other) (written content) files
                (λ p. cc ((str_eq_iff n other).1 (same_node n other hn ho p)))
              ∙ there_now,
        )
      ]

  -- A round of the loop that succeeds.
  round :
      (n : Str) (rest : List Str) (m : Machine) (d last : DiskState)
      → write_kickstarts r env dir (n ∷ rest) m d ≡ (ok tt, last)
      → (content : Str) × (render r (some env) n ≡ ok content)
        × (write_kickstarts r env dir rest m
              (record d { files = put_file (ks_file n) (written content) d.files })
            ≡ (ok tt, last))
  unfolding write_kickstarts
  round n rest m d last h =
      let (content, d1, told_it, g) =
        next-ok
          (λ content m d.
            next (λ u. write_kickstarts r env dir rest) m (write_file (ks_file n) content m d))
          m (told (wrapf "render %s: %w" (n ∷ [])) (render r (some env) n, d)) h in
      let (u, d2, wrote, k) =
        next-ok (λ u. write_kickstarts r env dir rest) m (write_file (ks_file n) content m d1) g in
      let rendered = told-ok (wrapf "render %s: %w" (n ∷ [])) (render r (some env) n, d) told_it in
      let after : d2 ≡ record d { files = put_file (ks_file n) (written content) d.files } =
        write_file-ok (ks_file n) content m d1 d2 wrote
        ∙ ap {A = DiskState} {B = DiskState}
            (λ x. record x { files = put_file (ks_file n) (written content) x.files })
            (sym (ap disk_of rendered)) in
      (
        content,
        ap result_of rendered,
        subst (λ x. write_kickstarts r env dir rest m x ≡ (ok tt, last)) after k,
      )

  write_kickstarts-keeps :
      (n : Str) (nodes : List Str) (m : Machine) (d last : DiskState)
      → IsNode n
      → All IsNode nodes
      → write_kickstarts r env dir nodes m d ≡ (ok tt, last)
      → Holds d.files n
      → Holds last.files n
  unfolding write_kickstarts
  write_kickstarts-keeps n [] m d last hn all h held =
      subst (λ x. Holds x.files n) (ap disk_of h) held
  write_kickstarts-keeps n (other ∷ rest) m d last hn all h held =
      let (content, e, g) = round other rest m d last h in
      write_kickstarts-keeps n rest m
        (record d { files = put_file (ks_file other) (written content) d.files }) last hn all.1 g
        (put_file-Holds n other content d.files hn all.0 e held)

  write_kickstarts-Holds :
      (nodes : List Str) (m : Machine) (d last : DiskState)
      → All IsNode nodes
      → write_kickstarts r env dir nodes m d ≡ (ok tt, last)
      → All (Holds last.files) nodes
  write_kickstarts-Holds [] m d last all h = tt
  write_kickstarts-Holds (n ∷ rest) m d last all h =
      let (content, e, g) = round n rest m d last h in
      let after = record d { files = put_file (ks_file n) (written content) d.files } in
      (
        write_kickstarts-keeps n rest m after last all.0 all.1 g
            (content, e, lookup-put_file_same (ks_file n) (written content) d.files),
        write_kickstarts-Holds rest m after last all.1 g,
      )

-- Where `kickstart generate` succeeds on a manifest and a set of templates that can be loaded, and
-- every node that it is for has a name that is one element of a path, each of them has its file in the
-- output directory, and the file holds what Render gives for that node.
pub kickstart_generate-Holds :
    (fs : TemplateFiles) (p : Process) (env_file node out_dir : Str) (m : Machine)
    (d last : DiskState) (env : Env) (r : Renderer) (nodes : List Str)
    → load_env_manifest p env_file ≡ ok env
    → new_renderer_from_fs fs ≡ ok r
    → generate_nodes env node m d ≡ (ok nodes, d)
    → All (λ n. is_name (n ++ lit ".ks") ≡ true) nodes
    → kickstart_generate fs p env_file node out_dir m d ≡ (ok tt, last)
    → All (Holds r env (if is_empty out_dir then lit "." else out_dir) last.files) nodes
unfolding kickstart_generate make_dir
kickstart_generate-Holds fs p env_file node out_dir m d last env r nodes l n g names h =
    let dir = if is_empty out_dir then lit "." else out_dir in
    let after : next (λ u. write_kickstarts r env dir nodes) m (make_dir dir m d) ≡ (ok tt, last) =
      rw (l, n, g) at h in
    let (u, d1, made, k) =
      next-ok (λ u. write_kickstarts r env dir nodes) m (make_dir dir m d) after in
    write_kickstarts-Holds r env dir nodes m d1 last names k
