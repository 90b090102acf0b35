-- ===== src/Kickstart/Renderer.antt =====
-- pkg/kickstart/renderer.go. The packages fs and text/template are parameters: a directory of
-- templates, and a set of templates that knows its names and how it is executed.
pub mod Entry
pub mod Distros
use proxclt.Base.{
  refuse_if, sort_strings, Str, lit, str_eq, is_empty, if◌then◌else◌, Bool, true, false, ◌||◌,
  Option, none, some, List, [], ◌∷◌, ◌++◌, Result, ok, err, Error, errorf, require, wrap, ◌>>=◌,
  ◌>>◌, not, ◌==◌, ltb,
}
use proxclt.Config.Model.{
  Dict, lookup, Env, Node, KickstartConfig, NetworkZone, Cluster, Hypervisor, Networks, resolved,
  resolved_at,
}

pub record RenderContext : Type 0 where
  pub env : Env
  pub node : Node
  pub node_name : Str
  pub hostname : Str
  pub fqdn : Str
  pub kickstart : KickstartConfig
  pub networks : Dict NetworkZone
  pub cluster : Option Cluster
  pub public_ip : Str
  pub vip_ip : Str
  pub private_ip : Str
  pub scan_ips : List Str

-- A *template.Template: the names that Lookup finds, and ExecuteTemplate into a buffer.
pub record Template : Type 0 where
  pub names : List Str
  pub execute_template : Str → RenderContext → Result Str

pub record Renderer : Type 0 where
  pub entries : Dict Template
  pub distros : List Str

-- An fs.FS with template.ParseFS on it: the entries of the directory templates with their IsDir,
-- the files that match a pattern, and the parse of files into a set that has some.
pub record TemplateFiles : Type 0 where
  pub read_dir : Result (List (Str × Bool))
  pub glob : Str → Result (List Str)
  pub parse : List Str → Template → Result Template

-- template.New(distro).Funcs(funcs)
unfoldable pub new_template : Template
new_template = record {
  names = [];
  execute_template = λ name context. err (errorf "template: %q is undefined" (name ∷ []));
}

-- The error of the first Glob is dropped.
found_files : Result (List Str) → List Str
found_files (ok files) = files
found_files (err e) = []

parse_common : TemplateFiles → List Str → Template → Result Template
parse_common fs [] t = ok t
parse_common fs (f ∷ files) t = wrap "parse common: %w" [] (fs.parse (f ∷ files) t)

-- One round of the loop over the directory. The names of a directory are distinct, so that the
-- entry of a map is new.
add_distro : TemplateFiles → List Str → Str → List Str → Renderer → Result Renderer
unfolding parse_common new_template
add_distro fs common distro [] r = ok r
add_distro fs common distro (f ∷ files) r = do
  base ← parse_common fs common new_template
  t ← wrap "parse distro %s: %w" (distro ∷ []) (fs.parse (f ∷ files) base)
  ok (record { entries = r.entries ++ (distro, t) ∷ []; distros = r.distros ++ distro ∷ [] })

load_entry : TemplateFiles → List Str → Str × Bool → Renderer → Result Renderer
unfolding add_distro lit str_eq
load_entry fs common (name, false) r = ok r
load_entry fs common (name, true) r = if str_eq name (lit "common") then ok r else do
  files ← fs.glob (lit "templates/" ++ name ++ lit "/*.tmpl")
  add_distro fs common name files r

load_entries : TemplateFiles → List Str → List (Str × Bool) → Renderer → Result Renderer
unfolding load_entry
load_entries fs common [] r = ok r
load_entries fs common (e ∷ rest) r = do
  next ← load_entry fs common e r
  load_entries fs common rest next

abbrev pub empty_renderer : Renderer
empty_renderer = record { entries = []; distros = [] }

unfoldable pub new_renderer_from_fs : TemplateFiles → Result Renderer
unfolding load_entries sort_strings found_files lit
new_renderer_from_fs fs = do
  dir ← wrap "read templates dir: %w" [] fs.read_dir
  r ← load_entries fs (found_files (fs.glob (lit "templates/common/*.tmpl"))) dir empty_renderer
  ok (record { entries = r.entries; distros = sort_strings r.distros })

unfoldable pub supported_distros : Renderer → List Str
supported_distros r = r.distros

-- t.Lookup(name) != nil
unfoldable pub has_template : List Str → Str → Bool
unfolding str_eq
has_template [] name = false
has_template (n ∷ r) name = str_eq n name || has_template r name

first_template : List Str → List Str → Str
unfolding has_template
first_template names [] = []
first_template names (c ∷ r) = if has_template names c then c else first_template names r

unfoldable pub candidates : List Str
unfolding lit
candidates =
    lit "base.ks.tmpl"
    ∷ lit "preseed.cfg.tmpl"
    ∷ lit "user-data.tmpl"
    ∷ lit "base.ks"
    ∷ lit "preseed.cfg"
    ∷ lit "user-data"
    ∷ []

unfoldable pub pick_entry : Template → Str
unfolding first_template candidates
pick_entry t = first_template t.names candidates

-- The zero value of a missing key.
abbrev or_empty : Option Str → Str
or_empty none = []
or_empty (some s) = s

abbrev zones_of : Option Networks → Dict NetworkZone
zones_of none = []
zones_of (some n) = n.zones

abbrev scan_ips_of : Option Cluster → List Str
scan_ips_of none = []
scan_ips_of (some c) = c.scan_ips

-- The context that RenderTemplate fills.
unfoldable pub template_context : Env → Str → Node → KickstartConfig → RenderContext
unfolding resolved resolved_at lookup lit is_empty str_eq
template_context env name node ks = record {
  env = env;
  node = node;
  node_name = name;
  hostname = name;
  fqdn = if is_empty env.metadata.domain then name else name ++ lit "." ++ env.metadata.domain;
  kickstart = ks;
  networks = zones_of (resolved env.spec.networks);
  cluster = resolved_at env.spec.cluster;
  public_ip = or_empty (lookup (lit "public") node.ips);
  vip_ip = or_empty (lookup (lit "vip") node.ips);
  private_ip = or_empty (lookup (lit "private") node.ips);
  scan_ips = scan_ips_of (resolved_at env.spec.cluster);
}

-- The one that Render fills, in code of its own.
unfoldable pub render_context : Env → Str → Node → KickstartConfig → RenderContext
unfolding resolved resolved_at lookup lit is_empty str_eq
render_context env name node ks = record {
  env = env;
  node = node;
  node_name = name;
  hostname = name;
  fqdn = if is_empty env.metadata.domain then name else name ++ lit "." ++ env.metadata.domain;
  kickstart = ks;
  networks = zones_of (resolved env.spec.networks);
  cluster = resolved_at env.spec.cluster;
  public_ip = or_empty (lookup (lit "public") node.ips);
  vip_ip = or_empty (lookup (lit "vip") node.ips);
  private_ip = or_empty (lookup (lit "private") node.ips);
  scan_ips = scan_ips_of (resolved_at env.spec.cluster);
}

unfoldable pub render_template : Renderer → Option Env → Str → Str → Result Str
unfolding resolved lookup has_template template_context
render_template r none name template = err (errorf "env is nil" [])
render_template r (some env) name template = do
  hyp ← require (errorf "env.spec.hypervisor not resolved" []) (resolved env.spec.hypervisor)
  node ←
      require (errorf "node %q not found in hypervisor.nodes" (name ∷ [])) (lookup name hyp.nodes)
  ks ← require (errorf "env has no kickstart config" []) hyp.kickstart
  t ←
      require (errorf "unsupported distro %q (supported: %v)" (ks.distro ∷ r.distros))
        (lookup ks.distro r.entries)
  refuse_if (not (has_template t.names template))
      (errorf "distro %q has no template %q" (ks.distro ∷ template ∷ []))
  wrap "execute %s/%s: %w" (ks.distro ∷ template ∷ [])
      (t.execute_template template (template_context env name node ks))

unfoldable pub render : Renderer → Option Env → Str → Result Str
unfolding resolved lookup pick_entry render_context is_empty
render r none name = err (errorf "env is nil" [])
render r (some env) name = do
  hyp ← require (errorf "env.spec.hypervisor not resolved" []) (resolved env.spec.hypervisor)
  node ←
      require (errorf "node %q not found in hypervisor.nodes" (name ∷ [])) (lookup name hyp.nodes)
  ks ← require (errorf "env has no kickstart config" []) hyp.kickstart
  refuse_if (is_empty ks.distro) (errorf "kickstart.distro is empty" [])
  t ←
      require (errorf "unsupported distro %q (supported: %v)" (ks.distro ∷ r.distros))
        (lookup ks.distro r.entries)
  let entry = pick_entry t
  refuse_if (is_empty entry) (
      errorf
        "distro %q: no entry template (expected base.ks.tmpl, preseed.cfg.tmpl, or user-data.tmpl)"
        (ks.distro ∷ []))
  wrap "execute %s/%s: %w" (ks.distro ∷ entry ∷ [])
      (t.execute_template entry (render_context env name node ks))
