-- ===== src/Store/Refs.antt =====
-- internal/store/bucket.go, validateRef and what it asks: the keys that this store writes.
use wsaw.Prelude.{
  ℕ, Bool, true, false, not, ◌&&◌, ◌||◌, none, some, [], ◌∷◌, ltb, leb, ◌==◌, if◌then◌else◌, length,
}
use wsaw.Prelude.Text.{Text, bytes, eqb, cut, has_prefix, trim_prefix, is_empty}

abbrev pub max_kind_length : ℕ
max_kind_length = 64

abbrev pub digest_length : ℕ
digest_length = 64

-- One byte of a suffix; a dash may stand between two others.
abbrev pub suffix_byte : Bool → ℕ → Bool → Bool
suffix_byte first c last =
    (leb b'a' c && leb c b'z') || (leb b'0' c && leb c b'9') || (c == b'-' && not first && not last)

unfoldable pub suffix_bytes : Bool → Text → Bool
suffix_bytes first [] = true
suffix_bytes first (c ∷ s) = suffix_byte first c (is_empty s) && suffix_bytes false s

unfoldable pub valid_kind_suffix : Text → Bool
valid_kind_suffix suffix = not (is_empty suffix) && suffix_bytes true suffix

unfoldable pub valid_kind : Text → Bool
valid_kind kind =
    if ltb max_kind_length (length kind)
    then false
    else if eqb kind (bytes "body")
        || eqb kind (bytes "result")
        || eqb kind (bytes "probe")
        || eqb kind (bytes "screenshot")
    then true
    else has_prefix kind (bytes "screenshot-")
      && valid_kind_suffix (trim_prefix kind (bytes "screenshot-"))

unfoldable pub is_hex : Text → Bool
is_hex [] = true
is_hex (c ∷ s) = ((leb b'0' c && leb c b'9') || (leb b'a' c && leb c b'f')) && is_hex s

unfoldable pub is_digest : Text → Bool
is_digest s = length s == digest_length && is_hex s

-- `isArtifactRef`: `validateRef` reports no error.
unfoldable pub is_artifact_ref : Text → Bool
is_artifact_ref ref = elim (cut b'/' ref) [
  | none ↦ false
  | some (kind, digest) ↦ valid_kind kind && is_digest digest
]
