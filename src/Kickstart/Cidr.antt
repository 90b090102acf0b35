-- ===== src/Kickstart/Cidr.antt =====
-- The address helpers of the templates in pkg/kickstart/renderer.go, with the parser of the package
-- net on which they stand. The parser of an IPv6 address, which gives its printed form, is a
-- parameter.
pub mod Mask
pub mod Printed
use proxclt.Base.{
  ℕ, zero, suc, ◌+◌, ◌-◌, ◌*◌, ◌/◌, ◌%◌, ◌^◌, Str, lit, itoa, atoi, split, join, cut_byte, is_empty,
  trim_right_byte, leb, ltb, ◌==◌, if◌then◌else◌, Bool, true, false, not, ◌&&◌, ◌||◌, Option, none,
  some, List, [], ◌∷◌, ◌++◌,
}

-- A netip.Addr without a zone: the four bytes of an IPv4 address, or the text of an IPv6 one.
pub data Address : Type 0 where
  v4 : List ℕ → Address
  v6 : Str → Address

leading_zero : Str → Bool
leading_zero [] = false
leading_zero (c ∷ []) = false
leading_zero (c ∷ d ∷ s) = c == 48

octet_in_range : Option ℕ → Option ℕ
octet_in_range none = none
octet_in_range (some n) = if leb n 255 then some n else none

-- A field of an IPv4 address: no leading zero, and at most 255.
unfoldable pub parse_octet : Str → Option ℕ
unfolding leading_zero octet_in_range
parse_octet s = if leading_zero s then none else octet_in_range (atoi s)

octet_cons : Option ℕ → Option (List ℕ) → Option (List ℕ)
octet_cons (some n) (some r) = some (n ∷ r)
octet_cons _ _ = none

unfoldable pub parse_octets : ℕ → List Str → Option (List ℕ)
unfolding octet_cons
parse_octets zero [] = some []
parse_octets zero (s ∷ r) = none
parse_octets (suc n) [] = none
parse_octets (suc n) (s ∷ r) = octet_cons (parse_octet s) (parse_octets n r)

-- netip.parseIPv4: four fields between dots.
unfoldable pub parse_ipv4 : Str → Option (List ℕ)
unfolding parse_octets
parse_ipv4 s = parse_octets 4 (split b'.' s)

abbrev as_v4 : Option (List ℕ) → Option Address
as_v4 none = none
as_v4 (some q) = some (v4 q)

abbrev as_v6 : Option Str → Option Address
as_v6 none = none
as_v6 (some s) = some (v6 s)

-- The first of `.`, `:` and `%` in a text.
unfoldable pub first_mark : Str → Option ℕ
first_mark [] = none
first_mark (c ∷ s) = if c == b'.' || c == b':' || c == b'%' then some c else first_mark s

-- The prefix length of a CIDR, at most the bits of the address.
unfoldable pub prefix_within : ℕ → Option ℕ → Option ℕ
prefix_within bits none = none
prefix_within bits (some n) = if leb n bits then some n else none

abbrev bits_of : Address → ℕ
bits_of (v4 q) = 32
bits_of (v6 s) = 128

abbrev with_prefix : Address → Option ℕ → Option (Address × ℕ)
with_prefix a none = none
with_prefix a (some n) = some (a, n)

-- net.CIDRMask(ones, 8 * length), one byte after the other.
unfoldable pub cidr_mask : ℕ → ℕ → List ℕ
cidr_mask zero n = []
cidr_mask (suc l) n =
    (if leb 8 n then 255 else 255 - 255 / 2 ^ n) ∷ cidr_mask l (if leb 8 n then n - 8 else 0)

leading_ones : ℕ → ℕ → ℕ
leading_ones zero v = 0
leading_ones (suc f) v = elim (leb 128 v) [ true ↦ suc (leading_ones f (v * 2 % 256)) | false ↦ 0 ]

-- The number of ones with which a mask starts. The masks here are those of cidr_mask, which have
-- no one after a zero, so that Size never reports (0, 0) for them.
unfoldable pub mask_size : List ℕ → ℕ
unfolding leading_ones
mask_size [] = 0
mask_size (v ∷ r) = elim (v == 255) [ true ↦ 8 + mask_size r | false ↦ leading_ones 8 v ]

-- fmt.Sprintf("%d.%d.%d.%d", …), and IP.String for an IPv4 address
unfoldable pub dotted : List ℕ → Str
dotted [] = []
dotted (n ∷ []) = itoa n
dotted (n ∷ m ∷ r) = itoa n ++ b'.' ∷ dotted (m ∷ r)

unfoldable pub address_string : Address → Str
address_string (v4 q) = dotted q
address_string (v6 s) = s

module _ (six : Str → Option Str) where
  address_by_mark : Str → Option ℕ → Option Address
  address_by_mark s none = none
  address_by_mark s (some c) =
      if c == b'.' then as_v4 (parse_ipv4 s) else if c == b':' then as_v6 (six s) else none

  -- net.ParseIP
  unfoldable pub parse_ip : Str → Option Address
  unfolding address_by_mark
  parse_ip s = address_by_mark s (first_mark s)

  sized : Option Address → Str → Option (Address × ℕ)
  sized none mask = none
  sized (some a) mask = with_prefix a (prefix_within (bits_of a) (atoi mask))

  parse_parts : Option (Str × Str) → Option (Address × ℕ)
  unfolding sized
  parse_parts none = none
  parse_parts (some (addr, mask)) = sized (parse_ip addr) mask

  -- net.ParseCIDR: the address, and the length of its prefix
  unfoldable pub parse_cidr : Str → Option (Address × ℕ)
  unfolding parse_parts
  parse_cidr s = parse_parts (cut_byte b'/' s)

  bare_ip : Str → Option Address → Str
  bare_ip s none = s
  bare_ip s (some a) = address_string a

  ip_of : Str → Option (Address × ℕ) → Str
  unfolding bare_ip
  ip_of s none = bare_ip s (parse_ip s)
  ip_of s (some (a, n)) = address_string a

  unfoldable pub cidr_ip : Str → Str
  unfolding ip_of
  cidr_ip s = ip_of s (parse_cidr s)

  netmask_of : Option (Address × ℕ) → Str
  netmask_of none = []
  netmask_of (some (v4 q, n)) = dotted (cidr_mask 4 n)
  netmask_of (some (v6 s, n)) = b'/' ∷ itoa (mask_size (cidr_mask 16 n))

  unfoldable pub cidr_netmask : Str → Str
  unfolding netmask_of
  cidr_netmask s = netmask_of (parse_cidr s)

  prefix_of : Option (Address × ℕ) → Str
  prefix_of none = []
  prefix_of (some (v4 q, n)) = itoa (mask_size (cidr_mask 4 n))
  prefix_of (some (v6 s, n)) = itoa (mask_size (cidr_mask 16 n))

  unfoldable pub cidr_prefix : Str → Str
  unfolding prefix_of
  cidr_prefix s = prefix_of (parse_cidr s)

trimmed_lines : List Str → List Str
trimmed_lines [] = []
trimmed_lines (s ∷ r) =
    let line = trim_right_byte 10 s in
    if is_empty line then trimmed_lines r else line ∷ trimmed_lines r

unfoldable pub join_lines : List Str → Str
unfolding trimmed_lines
join_lines ss = join (10 ∷ []) (trimmed_lines ss)
