-- ===== src/Root/Redact.antt =====
-- redactDeferredSecrets of internal/root/config.go, on one string; the walk over the strings of an env is
-- that of pkg/config/resolver.go.
pub mod Ends
pub mod Closed
use proxclt.Base.{
  prefixed, ℕ, zero, suc, Str, lit, has_prefix, cut_byte, length, Bool, true, false, Option, none,
  some, List, [], ◌∷◌, ◌++◌,
}

-- strings.Index, as the slices out[:i] and out[i:] ; the prefix is not empty
unfoldable pub cut_text : Str → Str → Option (Str × Str)
unfolding has_prefix
cut_text p [] = none
cut_text p (c ∷ s) = elim (has_prefix (c ∷ s) p) [
  | true ↦ some ([], c ∷ s)
  | false ↦ prefixed c (cut_text p s)
]

closed : Str → Option (Str × Str) → Option Str
unfolding lit
closed before none = none
closed before (some (marker, after)) = some (before ++ (lit "<REDACTED>" ++ after))

marked : Option (Str × Str) → Option Str
unfolding closed cut_byte
marked none = none
marked (some (before, left)) = closed before (cut_byte b'>' left)

-- The body of the inner loop, none where it breaks.
unfoldable pub redact_once : Str → Str → Option Str
unfolding cut_text marked
redact_once prefix out = marked (cut_text prefix out)

unfoldable pub redact_loop : ℕ → Str → Str → Str
unfolding redact_once
redact_loop zero prefix out = out
redact_loop (suc fuel) prefix out = elim (redact_once prefix out) [
  | none ↦ out
  | some next ↦ redact_loop fuel prefix next
]

-- As much fuel as the string has bytes.
unfoldable pub redact_prefix : Str → Str → Str
unfolding redact_loop
redact_prefix prefix out = redact_loop (length out) prefix out

unfoldable pub redact : Str → Str
unfolding redact_prefix lit
redact s = redact_prefix (lit "<GEN_SSH_KEY:") (redact_prefix (lit "<VAULT:") s)
