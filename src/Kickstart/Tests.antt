-- ===== src/Kickstart/Tests.antt =====
-- Small inputs for pkg/kickstart, and its theorems for them.
pub mod Iso
mod Label
use mathlib.Core.List.{Perm}
use proxclt.Base.{
  ℕ, ◌+◌, ◌-◌, ◌^◌, ◌≤◌, Str, String, lit, itoa, atoi, split, join, cut_byte, has_byte, contains,
  length, All, IsSorted, true, false, Option, none, some, List, [], ◌∷◌, ◌++◌, ok, ◌≡◌, refl, arith,
  is_empty, str_eq, str_leb, insert_string, sort_strings,
}
use proxclt.Config.Model.{KickstartConfig, Hypervisor, Env, lookup, resolved}
use proxclt.Config.Tests.Rules.{env_of, hypervisor_of, inline_of}
use proxclt.Kickstart.Cidr.{
  cidr_mask, mask_size, cidr_ip, cidr_netmask, cidr_prefix, parse_cidr, parse_ip, first_mark,
  parse_ipv4, parse_octet, prefix_within, dotted,
}
use proxclt.Kickstart.Cidr.Mask.{number, mask_size-cidr_mask}
use proxclt.Kickstart.Cidr.Printed.{cidr_text, cidr_helpers-printed}
use proxclt.Kickstart.Cmdline.{
  patch_kernel_cmdline, inject_before_separator, cut_separator, patch_line, span_blank, match_verb,
  verbs,
}
use proxclt.Kickstart.Cmdline.Separator.{inject_before_separator-live}
use proxclt.Kickstart.Cmdline.Idempotent.{patch_kernel_cmdline-twice}
use proxclt.Kickstart.Renderer.{
  Renderer, Template, TemplateFiles, render, render_template, has_template, candidates,
  new_renderer_from_fs, new_template, supported_distros,
}
use proxclt.Kickstart.Renderer.Entry.{IsEntry, render-eq-render_template}
use proxclt.Kickstart.Renderer.Distros.{keys, supported_distros-perm}

-- No text is an IPv6 address.
abbrev no_six : Str → Option Str
no_six s = none

netmask_test : cidr_netmask no_six (lit "10.10.0.100/20") ≡ lit "255.255.240.0"
unfolding lit cidr_netmask parse_cidr cut_byte parse_ip first_mark parse_ipv4 parse_octet atoi split
    prefix_within cidr_mask dotted itoa
netmask_test = refl

leading_zero_test : cidr_ip no_six (lit "10.10.0.010/20") ≡ lit "10.10.0.010/20"
unfolding lit cidr_ip parse_cidr cut_byte parse_ip first_mark parse_ipv4 parse_octet atoi split
    prefix_within
leading_zero_test = refl

cidr_helpers-printed_example :
    (cidr_ip no_six (cidr_text 10 10 0 100 20) ≡ dotted (10 ∷ 10 ∷ 0 ∷ 100 ∷ []))
    × (cidr_prefix no_six (cidr_text 10 10 0 100 20) ≡ itoa 20)
    × ((mask : List ℕ) × (cidr_netmask no_six (cidr_text 10 10 0 100 20) ≡ dotted mask)
        × (length mask ≡ 4)
        × (number mask + 2 ^ (32 - 20) ≡ 2 ^ 32))
cidr_helpers-printed_example =
    cidr_helpers-printed no_six 10 10 0 100 20 (omega arith) (omega arith) (omega arith)
      (omega arith) (omega arith)

abbrev autoinstall : Str
autoinstall = lit "autoinstall ds=nocloud\\;s=/cdrom/cidata/"

patch_test :
    patch_kernel_cmdline (lit "autoinstall") (lit "menu\n\tlinux\t/casper/vmlinuz  --- quiet")
    ≡ lit "menu\n\tlinux /casper/vmlinuz  autoinstall --- quiet"
unfolding lit patch_kernel_cmdline split patch_line span_blank match_verb verbs
    inject_before_separator cut_separator contains join
patch_test = refl

patch_kernel_cmdline-twice_example :
    patch_kernel_cmdline autoinstall
      (patch_kernel_cmdline autoinstall (lit "linux /casper/vmlinuz ---"))
    ≡ patch_kernel_cmdline autoinstall (lit "linux /casper/vmlinuz ---")
unfolding lit contains has_byte
patch_kernel_cmdline-twice_example =
    patch_kernel_cmdline-twice autoinstall (lit "linux /casper/vmlinuz ---") refl refl

inject_before_separator-live_example :
    (lit "/casper/vmlinuz" ++ lit " --- quiet" ≡ lit "/casper/vmlinuz --- quiet")
    × (cut_separator (inject_before_separator (lit "/casper/vmlinuz --- quiet") autoinstall)
        ≡ some (lit "/casper/vmlinuz" ++ 32 ∷ autoinstall, lit " --- quiet"))
unfolding lit cut_separator has_byte
inject_before_separator-live_example =
    inject_before_separator-live (lit "/casper/vmlinuz --- quiet") autoinstall
      (lit "/casper/vmlinuz") (lit " --- quiet") refl refl

-- A set with an answer file for Debian, and the names of the templates that it runs.
abbrev debian : Template
debian = record {
  names = lit "net.tmpl" ∷ lit "preseed.cfg.tmpl" ∷ [];
  execute_template = λ name context. ok name;
}

abbrev renderer : Renderer
renderer = record { entries = (lit "debian12", debian) ∷ []; distros = lit "debian12" ∷ [] }

abbrev pub debian_kickstart : KickstartConfig
debian_kickstart = record {
  distro = lit "debian12";
  timezone = [];
  keyboard_layout = [];
  lang = [];
  mode = [];
  ipv6_enabled = false;
  install_url = [];
  chrony_servers = [];
  sudo = none;
  packages = none;
  repos = [];
  firewall = none;
  update_system = false;
  ssh_keys = [];
  additional_users = [];
}

abbrev hypervisor : Hypervisor
hypervisor = record (hypervisor_of []) { kickstart = some debian_kickstart }

abbrev manifest : Env
manifest = record (env_of []) {
  spec = record (env_of []).spec { hypervisor = inline_of hypervisor };
}

abbrev preseed : Str
preseed = lit "preseed.cfg.tmpl"

preseed-IsEntry : IsEntry debian.names preseed
unfolding candidates has_template lit str_eq
preseed-IsEntry = record {
  before = lit "base.ks.tmpl" ∷ [];
  after = lit "user-data.tmpl" ∷ lit "base.ks" ∷ lit "preseed.cfg" ∷ lit "user-data" ∷ [];
  whole = refl;
  missing = (refl, tt);
  present = refl;
}

render-eq-render_template_example :
    render renderer (some manifest) (lit "a")
    ≡ render_template renderer (some manifest) (lit "a") preseed
unfolding resolved is_empty lit lookup str_eq
render-eq-render_template_example =
    render-eq-render_template renderer manifest hypervisor debian_kickstart debian preseed (lit "a")
      refl refl refl refl preseed-IsEntry

-- Two distros, the later name first, and the common partials.
abbrev templates : TemplateFiles
templates = record {
  read_dir = ok ((lit "ol9", true) ∷ (lit "common", true) ∷ (lit "debian12", true) ∷ []);
  glob = λ pattern. ok (pattern ∷ []);
  parse = λ files t. ok (record t { names = t.names ++ files });
}

abbrev set_of : String → Template
set_of distro = record new_template {
  names = lit "templates/common/*.tmpl" ∷ (lit "templates/" ++ lit distro ++ lit "/*.tmpl") ∷ [];
}

abbrev loaded : Renderer
loaded = record {
  entries = (lit "ol9", set_of "ol9") ∷ (lit "debian12", set_of "debian12") ∷ [];
  distros = lit "debian12" ∷ lit "ol9" ∷ [];
}
