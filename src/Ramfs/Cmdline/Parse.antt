-- ===== src/Ramfs/Cmdline/Parse.antt =====
-- cmdline.rs: `parse`, and the parameters that are each found by a search of their own.
use mathlib.Core.Option
use quantra_system.Base.{ℕ, Bool, ◌&&◌, ◌||◌, not, Option, none, some, List, any, if◌then◌else◌}
use quantra_system.Base.Text.{
  Text, codes, text_eq, strip_prefix, trim, parse_uint, has_infix, split_whitespace,
}
use quantra_system.Ramfs.Cmdline.{
  u16_max, Scan, initial, scan, find_map, has, value, ends_with, trim_end_matches,
}

abbrev pub ip_iface_of : Text → Option Text
ip_iface_of t =
    if has_infix (codes ":dhcp") t && not (text_eq t (codes "ip=dhcp"))
    then Option.map (trim_end_matches (codes ":dhcp")) (strip_prefix (codes "ip=") t)
    else none

abbrev pub static_or_none : Option Text → Option Text
static_or_none none = none
static_or_none (some v) =
    if not (has_infix (codes "dhcp") v) && has_infix (codes ":") v then some v else none

abbrev pub ip_static_of : Text → Option Text
ip_static_of t = static_or_none (strip_prefix (codes "ip=") t)

abbrev pub port_from : Option Text → Option ℕ
port_from none = none
port_from (some v) = parse_uint u16_max v

abbrev pub port_of : Text → Option ℕ
port_of t = port_from (strip_prefix (codes "rd.iscsi.target.port=") t)

abbrev pub port_or : Option ℕ → ℕ
port_or none = 3260
port_or (some p) = p

pub record Cmdline : Type 0 where
  pub scanned : Scan
  pub raw : Text
  pub rd_md : Bool
  pub rd_md_uuid : Option Text
  pub rd_lvm : Bool
  pub rd_lvm_vg : Option Text
  pub rd_multipath : Bool
  pub ip_dhcp : Bool
  pub ip_iface : Option Text
  pub ip_static : Option Text
  pub luks_pkcs11_uri : Option Text
  pub secure_boot_check : Bool
  pub iscsi_initiator : Option Text
  pub iscsi_target_name : Option Text
  pub iscsi_target_ip : Option Text
  pub iscsi_target_port : ℕ
  pub nbd : Option Text
  pub rd_http_url : Option Text
  pub ipv6_slaac : Bool
  pub zfs_pool : Option Text
  pub splash : Bool
  pub plymouth_theme : Option Text
  pub rd_vconsole_keymap : Option Text
  pub stratis_pool_uuid : Option Text

abbrev pub from_words : Text → List Text → Cmdline
from_words raw toks = record {
  scanned = scan toks initial;
  raw = trim raw;
  rd_md = has (codes "rd.md=1") toks;
  rd_md_uuid = value (codes "rd.md.uuid=") toks;
  rd_lvm = has (codes "rd.lvm=1") toks;
  rd_lvm_vg = value (codes "rd.lvm.vg=") toks;
  rd_multipath = has (codes "rd.multipath=1") toks;
  ip_dhcp = any (λ t. text_eq t (codes "ip=dhcp") || ends_with (codes ":dhcp") t) toks;
  ip_iface = find_map ip_iface_of toks;
  ip_static = find_map ip_static_of toks;
  luks_pkcs11_uri = value (codes "rd.luks.pkcs11-uri=") toks;
  secure_boot_check = has (codes "rd.secure-boot=1") toks;
  iscsi_initiator = value (codes "rd.iscsi.initiator=") toks;
  iscsi_target_name = value (codes "rd.iscsi.target.name=") toks;
  iscsi_target_ip = value (codes "rd.iscsi.target.ip=") toks;
  iscsi_target_port = port_or (find_map port_of toks);
  nbd = value (codes "nbd=") toks;
  rd_http_url = value (codes "rd.http.url=") toks;
  ipv6_slaac = any (λ t. text_eq t (codes "ipv6=dhcpv6") || text_eq t (codes "ipv6=slaac")) toks;
  zfs_pool = value (codes "zfs.pool=") toks;
  splash = has (codes "splash") toks;
  plymouth_theme = value (codes "plymouth.theme=") toks;
  rd_vconsole_keymap = value (codes "rd.vconsole.keymap=") toks;
  stratis_pool_uuid = value (codes "rd.stratis.uuid=") toks;
}

-- What `/proc/cmdline` holds, none where it cannot be read.
unfoldable pub parse : Option Text → Option Cmdline
parse none = none
parse (some raw) = some (from_words raw (split_whitespace raw))
