-- ===== src/Root/Process.antt =====
-- internal/root/clientutil.go, and NewClient of pkg/proxmox/client.go: from the flags, the environment
-- and the files of the process to an env and the credentials of a client.
use proxclt.Base.{
  ℕ, Str, lit, str_eq, is_empty, has_prefix, trim_suffix, trim_right_byte, first_non_empty, Bool,
  ◌||◌, if◌then◌else◌, Option, none, some, List, [], ◌∷◌, ◌++◌, Error, errorf, wrapf, Result, ok,
  err, wrap, require, refuse_if, ◌>>=◌, ◌>>◌,
}
use proxclt.Config.Model.{lookup, Env, resolved}
use proxclt.Config.Loader.{clean}

pub record ProxctlContext : Type 0 where
  pub name : Str
  pub endpoint : Str
  pub token_id : Str
  pub token_secret : Str
  pub insecure_tls : Bool

pub record ProxctlConfig : Type 0 where
  pub current_context : Str
  pub contexts : List ProxctlContext

pub record ClientOpts : Type 0 where
  pub endpoint : Str
  pub token_id : Str
  pub token_secret : Str
  pub insecure_tls : Bool

-- What the process was started with: os.Getenv, the home directory, os.ReadFile, yaml.Unmarshal into a
-- proxctlConfig, os.Stat, config.Load, the error of kickstart.NewRenderer, the set-up of the SSH tunnel
-- of NewClient, which may replace the endpoint, and the global flags.
pub record Process : Type 0 where
  pub getenv : Str → Str
  pub home : Str
  pub read_file : Str → Result Str
  pub parse_config : Str → Result ProxctlConfig
  pub stat : Str → Option Error
  pub load : Str → Result Env
  pub renderer : Result (Unit {0})
  pub tunnel : Str → Result Str
  pub context : Str
  pub stack : Str
  pub assume_yes : Bool

-- filepath.Join(home, ".proxctl", "config.yaml")
unfoldable pub config_path : Str → Str
unfolding is_empty lit clean
config_path home =
    if is_empty home
    then lit ".proxctl/config.yaml"
    else clean (home ++ lit "/.proxctl/config.yaml")

-- The fields that a context fills where the environment left them empty.
abbrev fill : ClientOpts → ProxctlContext → ClientOpts
fill o c = record {
  endpoint = if is_empty o.endpoint then c.endpoint else o.endpoint;
  token_id = if is_empty o.token_id then c.token_id else o.token_id;
  token_secret = if is_empty o.token_secret then c.token_secret else o.token_secret;
  insecure_tls = o.insecure_tls || c.insecure_tls;
}

-- The loop over the contexts, which ends at the first one of the name.
unfoldable pub fill_from : Str → List ProxctlContext → ClientOpts → ClientOpts
fill_from name [] o = o
fill_from name (c ∷ rest) o = if str_eq c.name name then fill o c else fill_from name rest o

from_file : Process → Result Str → ClientOpts → Result ClientOpts
unfolding fill_from is_empty
from_file p (err unreadable) o = ok o
from_file p (ok text) o = do
  cfg ← wrap "parse %s: %w" (config_path p.home ∷ []) (p.parse_config text)
  ok (fill_from (if is_empty p.context then cfg.current_context else p.context) cfg.contexts o)

unfoldable pub from_environment : Process → ClientOpts
unfolding lit str_eq
from_environment p = record {
  endpoint = p.getenv (lit "PROXCTL_ENDPOINT");
  token_id = p.getenv (lit "PROXCTL_TOKEN_ID");
  token_secret = p.getenv (lit "PROXCTL_TOKEN_SECRET");
  insecure_tls = str_eq (p.getenv (lit "PROXCTL_INSECURE_TLS")) (lit "1");
}

unfoldable pub normalize_endpoint : Str → Str
unfolding trim_right_byte trim_suffix lit
normalize_endpoint endpoint =
    trim_right_byte b'/' (trim_suffix (trim_right_byte b'/' endpoint) (lit "/api2/json"))

-- A *proxmox.Client, less its transport.
pub record Client : Type 0 where
  pub endpoint : Str
  pub token_id : Str
  pub token_secret : Str

unfoldable pub new_client : Process → ClientOpts → Result Client
unfolding is_empty normalize_endpoint
new_client p o = do
  refuse_if (is_empty o.endpoint) (errorf "proxmox: Endpoint is required" [])
  refuse_if (is_empty o.token_id) (errorf "proxmox: TokenID is required" [])
  refuse_if (is_empty o.token_secret) (errorf "proxmox: TokenSecret is required" [])
  endpoint ← p.tunnel (normalize_endpoint o.endpoint)
  ok (record { endpoint = endpoint; token_id = o.token_id; token_secret = o.token_secret })

unfoldable pub build_url : Client → Str → Str
unfolding has_prefix lit
build_url c path =
    c.endpoint ++ lit "/api2/json" ++ (if has_prefix path (lit "/") then path else lit "/" ++ path)

unfoldable pub load_proxmox_client : Process → Result Client
unfolding from_file from_environment is_empty config_path new_client
load_proxmox_client p = do
  o ← from_file p (p.read_file (config_path p.home)) (from_environment p)
  refuse_if (is_empty o.endpoint || is_empty o.token_id || is_empty o.token_secret) (
      errorf
        "proxmox credentials missing: set $PROXCTL_ENDPOINT/$PROXCTL_TOKEN_ID/$PROXCTL_TOKEN_SECRET or create ~/.proxctl/config.yaml"
        [])
  new_client p o

readable : Str → Option Error → Result (Unit {0})
readable path none = ok tt
readable path (some e) = err (wrapf "read %s: %w" (path ∷ []) e)

unfoldable pub manifest_path : Process → Str → Str
unfolding first_non_empty lit
manifest_path p explicit = first_non_empty (explicit ∷ p.stack ∷ lit "env.yaml" ∷ [])

unfoldable pub load_env_manifest : Process → Str → Result Env
unfolding manifest_path readable
load_env_manifest p explicit = do
  readable (manifest_path p explicit) (p.stat (manifest_path p explicit))
  wrap "load %s: %w" (manifest_path p explicit ∷ []) (p.load (manifest_path p explicit))

unfoldable pub resolve_node_ref : Env → Str → Result (Str × ℕ)
unfolding resolved lookup
resolve_node_ref env name = do
  hyp ← require (errorf "hypervisor not resolved" []) (resolved env.spec.hypervisor)
  n ← require (errorf "node %q not in manifest" (name ∷ [])) (lookup name hyp.nodes)
  ok (n.proxmox.node_name, n.proxmox.vmid)
