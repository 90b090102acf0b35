-- ===== src/Root/Endpoint.antt =====
-- How NewClient of pkg/proxmox/client.go writes an endpoint.
use mathlib.Core.List.{reverse, reverse-append, reverse-reverse}
use proxclt.Base.{
  ℕ, Str, lit, trim_right_byte, trim_prefix, trim_suffix, has_prefix, has_suffix, drop_byte,
  drop_length, true, false, ◌≡◌, refl, ap, ◌∙◌, arith, [], ◌∷◌, ◌++◌,
}
use proxclt.Root.Process.{normalize_endpoint}

-- An endpoint as it is kept: no slash at the end, and not the path of the API.
pub record IsPlain (endpoint : Str) : Type 0 where
  pub no_slash : has_suffix endpoint (lit "/") ≡ false
  pub no_path : has_suffix endpoint (lit "/api2/json") ≡ false

drop_byte-other : (b : ℕ) (s : Str) → has_prefix s (b ∷ []) ≡ false → drop_byte b s ≡ s
unfolding drop_byte has_prefix
drop_byte-other b [] h = refl
drop_byte-other b (a ∷ s) h = ground arith

trim_right-plain : (s : Str) → has_suffix s (lit "/") ≡ false → trim_right_byte b'/' s ≡ s
unfolding trim_right_byte has_suffix lit
trim_right-plain s h = ap reverse (drop_byte-other b'/' (reverse s) h) ∙ reverse-reverse s

trim_suffix-plain : (s p : Str) → has_suffix s p ≡ false → trim_suffix s p ≡ s
unfolding trim_suffix trim_prefix has_suffix
trim_suffix-plain s p h = rw h (reverse-reverse s)

has_prefix-append : (p s : Str) → has_prefix (p ++ s) p ≡ true
unfolding has_prefix
has_prefix-append [] [] = refl
has_prefix-append [] (a ∷ s) = refl
has_prefix-append (b ∷ p) s = ground (arith, has_prefix-append p s)

drop_length-append : (p s : Str) → drop_length (p ++ s) p ≡ s
unfolding drop_length
drop_length-append [] [] = refl
drop_length-append [] (a ∷ s) = refl
drop_length-append (b ∷ p) s = drop_length-append p s

trim_suffix-append : (s p : Str) → trim_suffix (s ++ p) p ≡ s
unfolding trim_suffix trim_prefix
trim_suffix-append s p =
    rw
      (
        reverse-append s p,
        has_prefix-append (reverse p) (reverse s),
        drop_length-append (reverse p) (reverse s),
      )
      (reverse-reverse s)

trim_right-slash :
    (s : Str) → has_suffix s (lit "/") ≡ false → trim_right_byte b'/' (s ++ lit "/") ≡ s
unfolding trim_right_byte has_suffix drop_byte lit
trim_right-slash s h =
    ap (λ z. reverse (drop_byte b'/' z)) (reverse-append s (b'/' ∷ []))
    ∙ ap reverse (drop_byte-other b'/' (reverse s) h)
    ∙ reverse-reverse s

path-no_slash : (s : Str) → has_suffix (s ++ lit "/api2/json") (lit "/") ≡ false
unfolding has_suffix lit has_prefix
path-no_slash s = ap (λ z. has_prefix z (b'/' ∷ [])) (reverse-append s (lit "/api2/json"))

-- An endpoint without a slash or the path of the API at its end is kept as it is, and so it is with a slash,
-- with the path of the API, or with that path and a slash added to it.
pub normalize_endpoint-IsPlain :
    (endpoint : Str)
    → IsPlain endpoint
    → (normalize_endpoint endpoint ≡ endpoint)
      × (normalize_endpoint (endpoint ++ lit "/") ≡ endpoint)
      × (normalize_endpoint (endpoint ++ lit "/api2/json") ≡ endpoint)
      × (normalize_endpoint ((endpoint ++ lit "/api2/json") ++ lit "/") ≡ endpoint)
unfolding normalize_endpoint
normalize_endpoint-IsPlain endpoint h =
    let kept = trim_right-plain endpoint h.no_slash in
    let plain =
      ap (trim_right_byte b'/') (trim_suffix-plain endpoint (lit "/api2/json") h.no_path) ∙ kept in
    let cut = ap (trim_right_byte b'/') (trim_suffix-append endpoint (lit "/api2/json")) ∙ kept in
    let path = endpoint ++ lit "/api2/json" in
    (
      ap finish kept ∙ plain,
      ap finish (trim_right-slash endpoint h.no_slash) ∙ plain,
      ap finish (trim_right-plain path (path-no_slash endpoint)) ∙ cut,
      ap finish (trim_right-slash path (path-no_slash endpoint)) ∙ cut,
    )
  where
    finish : Str → Str
    finish s = trim_right_byte b'/' (trim_suffix s (lit "/api2/json"))
