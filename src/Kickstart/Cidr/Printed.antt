-- ===== src/Kickstart/Cidr/Printed.antt =====
-- What the address helpers make of an IPv4 address with a prefix length.
use proxclt.Base.{
  ℕ, ◌+◌, ◌-◌, ◌^◌, ◌≤◌, ◌<◌, ◌≡◌, refl, arith, ◌==◌, true, false, Bool, not, ◌&&◌, Option, none,
  some, List, [], ◌∷◌, ◌++◌, Str, itoa, atoi, has_byte, has_byte-append, length, cut_byte-append,
  split-append, split-last, all_below, of_all_below,
}
use proxclt.Kickstart.Cidr.{
  parse_octet, parse_octets, parse_ipv4, first_mark, dotted, address_string, parse_ip, parse_cidr,
  cidr_ip, cidr_netmask, cidr_prefix, cidr_mask, ip_of, netmask_of, prefix_of, prefix_within, v4,
}
use proxclt.Kickstart.Cidr.Mask.{number, number-cidr_mask, mask_size-cidr_mask}

same : ℕ → Option ℕ → Bool
same n none = false
same n (some m) = m == n

same-eq : (n : ℕ) (o : Option ℕ) → same n o ≡ true → o ≡ some n
unfolding same
same-eq n none h = cc
same-eq n (some m) h = ground arith

-- What the decimal digits of a byte are read as, and the separators that they do not hold.
byte_reads : ℕ → Bool
byte_reads n =
    same n (parse_octet (itoa n))
    && same n (atoi (itoa n))
    && not (has_byte b'.' (itoa n))
    && not (has_byte b'/' (itoa n))
    && not (has_byte b':' (itoa n))
    && not (has_byte b'%' (itoa n))

byte_table : all_below 256 byte_reads ≡ true
unfolding all_below byte_reads same parse_octet itoa atoi has_byte
byte_table = refl

pub record ByteReads (n : ℕ) : Type 0 where
  pub octet : parse_octet (itoa n) ≡ some n
  pub decimal : atoi (itoa n) ≡ some n
  pub no_dot : has_byte b'.' (itoa n) ≡ false
  pub no_slash : has_byte b'/' (itoa n) ≡ false
  pub no_colon : has_byte b':' (itoa n) ≡ false
  pub no_percent : has_byte b'%' (itoa n) ≡ false

byte-ByteReads : (n : ℕ) → n < 256 → ByteReads n
unfolding byte_reads
byte-ByteReads n h = ground (
  arith,
  of_all_below 256 byte_reads n byte_table h,
  same-eq n (parse_octet (itoa n)),
  same-eq n (atoi (itoa n)),
)

first_mark-append :
    (s t : Str)
    → has_byte b'.' s ≡ false
    → has_byte b':' s ≡ false
    → has_byte b'%' s ≡ false
    → first_mark (s ++ b'.' ∷ t) ≡ some b'.'
unfolding first_mark has_byte
first_mark-append [] t p q r = refl
first_mark-append (a ∷ s) t p q r = ground (arith, first_mark-append s t)

module _ (a b c d : ℕ) (ra : ByteReads a) (rb : ByteReads b) (rc : ByteReads c)
    (rd : ByteReads d) where
  abbrev quad : List ℕ
  quad = a ∷ b ∷ c ∷ d ∷ []

  parse_ipv4-dotted : parse_ipv4 (dotted quad) ≡ some quad
  unfolding parse_ipv4 dotted
  parse_ipv4-dotted = rw (
    split-append b'.' (itoa a) (itoa b ++ b'.' ∷ (itoa c ++ b'.' ∷ itoa d)) ra.no_dot,
    split-append b'.' (itoa b) (itoa c ++ b'.' ∷ itoa d) rb.no_dot,
    split-append b'.' (itoa c) (itoa d) rc.no_dot,
    split-last b'.' (itoa d) rd.no_dot,
    parse_octets,
    ra.octet,
    rb.octet,
    rc.octet,
    rd.octet,
  )

  dotted-no_slash : has_byte b'/' (dotted quad) ≡ false
  unfolding dotted has_byte
  dotted-no_slash = simp (has_byte-append b'/', ra.no_slash, rb.no_slash, rc.no_slash, rd.no_slash)

  first_mark-dotted : first_mark (dotted quad) ≡ some b'.'
  unfolding dotted
  first_mark-dotted = first_mark-append (itoa a) _ ra.no_dot ra.no_colon ra.no_percent

-- An IPv4 address with a prefix length, as it is printed.
abbrev pub cidr_text : ℕ → ℕ → ℕ → ℕ → ℕ → Str
cidr_text a b c d n = dotted (a ∷ b ∷ c ∷ d ∷ []) ++ b'/' ∷ itoa n

module _ (six : Str → Option Str) (a b c d n : ℕ) where
  parse_cidr-printed :
      a < 256
      → b < 256
      → c < 256
      → d < 256
      → n ≤ 32
      → parse_cidr six (cidr_text a b c d n) ≡ some (v4 (a ∷ b ∷ c ∷ d ∷ []), n)
  unfolding parse_cidr parse_ip prefix_within
  parse_cidr-printed ha hb hc hd hn =
      let ra = byte-ByteReads a ha in
      let rb = byte-ByteReads b hb in
      let rc = byte-ByteReads c hc in
      let rd = byte-ByteReads d hd in
      let rn = byte-ByteReads n (omega arith) in
      rw
        (
          cut_byte-append b'/' (dotted (a ∷ b ∷ c ∷ d ∷ [])) (itoa n)
              (dotted-no_slash a b c d ra rb rc rd),
          first_mark-dotted a b c d ra rb rc rd,
          parse_ipv4-dotted a b c d ra rb rc rd,
          rn.decimal,
        )
        (ground arith)

  -- For four bytes and a prefix length of at most 32, the printed CIDR gives the printed address as
  -- its host part, the prefix length as its prefix, and as its netmask the four dotted bytes that
  -- stand for 2 ^ 32 - 2 ^ (32 - n).
  pub cidr_helpers-printed :
      a < 256
      → b < 256
      → c < 256
      → d < 256
      → n ≤ 32
      → (cidr_ip six (cidr_text a b c d n) ≡ dotted (a ∷ b ∷ c ∷ d ∷ []))
        × (cidr_prefix six (cidr_text a b c d n) ≡ itoa n)
        × ((mask : List ℕ) × (cidr_netmask six (cidr_text a b c d n) ≡ dotted mask)
            × (length mask ≡ 4)
            × (number mask + 2 ^ (32 - n) ≡ 2 ^ 32))
  unfolding cidr_ip cidr_netmask cidr_prefix ip_of netmask_of prefix_of address_string
  cidr_helpers-printed ha hb hc hd hn =
      let sizes = mask_size-cidr_mask 4 n (omega arith) in
      rw (parse_cidr-printed ha hb hc hd hn, sizes.0)
        (refl, refl, (cidr_mask 4 n, refl, sizes.1, number-cidr_mask n hn))
