-- ===== src/Kickstart/Cidr/Mask.antt =====
-- The netmask of a prefix length, against what its bits must be.
use proxclt.Base.{
  ℕ, zero, suc, ◌+◌, ◌-◌, ◌*◌, ◌/◌, ◌^◌, ◌≤◌, ◌<◌, ◌≡◌, refl, arith, leb, ◌==◌, ==_iff, Bool-cases,
  true, false, not, inl, inr, List, [], ◌∷◌, All, length, all_below, of_all_below,
}
use proxclt.Kickstart.Cidr.{cidr_mask, leading_ones, mask_size}

-- The number that the bytes of a mask stand for, the first byte the highest.
unfoldable pub number : List ℕ → ℕ
number [] = 0
number (v ∷ r) = v * 256 ^ length r + number r

mask_table : all_below 8 (λ n. leading_ones 8 (255 - 255 / 2 ^ n) == n) ≡ true
unfolding all_below leading_ones
mask_table = refl

leading_ones-mask : (n : ℕ) → n < 8 → leading_ones 8 (255 - 255 / 2 ^ n) ≡ n
leading_ones-mask n h = (==_iff _ n).0 (of_all_below 8 _ n mask_table h)

partial_table : all_below 8 (λ n. not (255 - 255 / 2 ^ n == 255)) ≡ true
unfolding all_below
partial_table = refl

partial-ne : (n : ℕ) → n < 8 → (255 - 255 / 2 ^ n == 255) ≡ false
partial-ne n h =
    ground (arith, of_all_below 8 (λ n. not (255 - 255 / 2 ^ n == 255)) n partial_table h)

-- For every prefix length that fits an address of l bytes, the mask has l bytes, each at most 255,
-- and the size of the mask is the prefix length again.
pub mask_size-cidr_mask :
    (l n : ℕ)
    → n ≤ 8 * l
    → (mask_size (cidr_mask l n) ≡ n)
      × (length (cidr_mask l n) ≡ l)
      × All (λ v. v ≤ 255) (cidr_mask l n)
unfolding cidr_mask mask_size
mask_size-cidr_mask zero n h = (omega arith, refl, tt)
mask_size-cidr_mask (suc l) n h = elim (Bool-cases (leb 8 n)) [
  | inl full ↦ rw full (ground (arith, mask_size-cidr_mask l (n - 8)))
  | inr part ↦ rw part (ground (arith, partial-ne n, leading_ones-mask n, mask_size-cidr_mask l 0))
]

ipv4_table : all_below 33 (λ n. number (cidr_mask 4 n) + 2 ^ (32 - n) == 2 ^ 32) ≡ true
unfolding all_below number cidr_mask
ipv4_table = refl

-- As a number of 32 bits, the mask of an IPv4 prefix is 2 ^ 32 - 2 ^ (32 - n).
pub number-cidr_mask : (n : ℕ) → n ≤ 32 → number (cidr_mask 4 n) + 2 ^ (32 - n) ≡ 2 ^ 32
number-cidr_mask n h = (==_iff _ (2 ^ 32)).0 (
    of_all_below 33 (λ n. number (cidr_mask 4 n) + 2 ^ (32 - n) == 2 ^ 32) n ipv4_table
      (omega arith))
