-- ===== src/Diff/HostList/Laws.antt =====
-- What the host lists of internal/diff/rules.go match.
use wsaw.Prelude.{
  ◌≡◌, refl, ◌∙◌, Bool, false, not, ◌&&◌, ◌||◌, List, [], ◌∷◌, ◌++◌, any, if◌then◌else◌, arith,
  Bool-cases, inl, inr,
}
use wsaw.Prelude.Text.{
  Text, bytes, eqb, eqb_iff, is_empty, to_lower, trim_space, trim_prefix, has_prefix,
}
use wsaw.Classify.{Domains, registrable_domain, mem}
use wsaw.Diff.HostList.{HostList, add_patterns, new_host_list, under, matches}

-- What one pattern covers of a host in lower case: a wildcard covers the domain after it and what is
-- under that; a bare domain covers also the hosts whose registrable domain it is.
unfoldable pub covers : Domains → Text → Text → Bool
unfolding under has_prefix registrable_domain
covers d host raw =
    let p = to_lower (trim_space raw) in
    if is_empty p
    then false
    else if has_prefix p (bytes "*.")
    then under host (trim_prefix p (bytes "*."))
    else under host p || eqb (registrable_domain d host) p

-- The tests of `Matches` on a host in lower case.
found : Domains → Text → HostList → Bool
unfolding mem registrable_domain under
found d host l =
    mem host l.exact
    || ((not (eqb (registrable_domain d host) host) && mem (registrable_domain d host) l.exact)
        || any (under host) l.suffixes)

any-append {ℓ} :
    {A : Type ℓ} (p : A → Bool) (xs ys : List A) → any p (xs ++ ys) ≡ (any p xs || any p ys)
unfolding any
any-append p [] ys = refl
any-append p (x ∷ xs) ys = ground (arith, any-append p xs ys)

wildcard :
    (d : Domains) (host s : Text) (l : HostList)
    → found d host (record l { suffixes = l.suffixes ++ s ∷ [] }) ≡ (found d host l || under host s)
unfolding found any
wildcard d host s l = ground (arith, any-append (under host) l.suffixes (s ∷ []))

bare :
    (d : Domains) (host p : Text) (l : HostList)
    → found d host (record { exact = p ∷ l.exact; suffixes = l.suffixes ++ p ∷ [] })
      ≡ (found d host l || (under host p || eqb (registrable_domain d host) p))
unfolding found any mem under
bare d host p l = ground (
  arith,
  any-append (under host) l.suffixes (p ∷ []),
  eqb_iff (registrable_domain d host) host,
  eqb_iff host p,
  eqb_iff (registrable_domain d host) p,
)

found-add :
    (d : Domains) (host : Text) (l : HostList) (ps : List Text)
    → found d host (add_patterns l ps) ≡ (found d host l || any (covers d host) ps)
unfolding add_patterns any covers
found-add d host l [] = ground arith
found-add d host l (raw ∷ ps) = elim (Bool-cases (is_empty (to_lower (trim_space raw)))) [
  | inl e ↦ rw e (ground (arith, found-add d host l ps))
  | inr e ↦ elim (Bool-cases (has_prefix (to_lower (trim_space raw)) (bytes "*."))) [
    | inl w ↦
        rw (e, w)
          (found-add d host
              (record l {
                suffixes = l.suffixes ++ trim_prefix (to_lower (trim_space raw)) (bytes "*.") ∷ [];
              })
              ps
            ∙ ground
                (arith, wildcard d host (trim_prefix (to_lower (trim_space raw)) (bytes "*.")) l))
    | inr w ↦
        rw (e, w)
          (found-add d host
              (record {
                exact = to_lower (trim_space raw) ∷ l.exact;
                suffixes = l.suffixes ++ to_lower (trim_space raw) ∷ [];
              })
              ps
            ∙ ground (arith, bare d host (to_lower (trim_space raw)) l))
  ]
]

-- A list that is compiled from patterns matches a host exactly when one of the patterns covers it,
-- in whatever order they are listed; no host at all is never matched.
pub matches-covers :
    (d : Domains) (ps : List Text) (host : Text)
    → matches d (new_host_list ps) host ≡ (not (is_empty host) && any (covers d (to_lower host)) ps)
unfolding matches new_host_list found any mem
matches-covers d ps host =
    ground (arith, found-add d (to_lower host) (record { exact = []; suffixes = [] }) ps)
