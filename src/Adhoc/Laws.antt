-- ===== src/Adhoc/Laws.antt =====
-- Accept of internal/adhoc/adhoc.go: what an accepted URL has passed.
use wsaw.Prelude.{
  ◌≡◌, refl, Bool, true, false, not, ◌||◌, none, some, Option-cases, inl, inr, ◌⊎◌, List, [], ◌∷◌,
  arith, any,
}
use wsaw.Prelude.Text.{Text, bytes, eqb, is_empty, trim_space}
use wsaw.Adhoc.Addresses.{Ip, is_public}
use wsaw.Adhoc.{
  Net, Url, Refusal, Answer, accepted, refused, name, parse, check_url, first_private, check_addrs,
  check_resolved, check_host, accept_url, accept, is_loopback_name,
}

-- There is an address, and every one is public.
abbrev pub all_public : List Ip → Bool
all_public [] = false
all_public (a ∷ addrs) = not (any (λ b. not (is_public b)) (a ∷ addrs))

-- The host is a public address, or a name that resolves to public addresses alone.
abbrev pub host_public : Net → Text → Bool
host_public net host = elim (net.parse_ip host) [
  | some ip ↦ is_public ip
  | none ↦ elim (net.lookup_ip host) [ none ↦ false | some addrs ↦ all_public addrs ]
]

first_private-none :
    (addrs : List Ip) → first_private addrs ≡ none → any (λ b. not (is_public b)) addrs ≡ false
unfolding first_private any
first_private-none [] h = refl
first_private-none (a ∷ addrs) h = ground (arith, first_private-none addrs)

module _ (net : Net) where
  check_addrs-none :
      (host : Text) (addrs : List Ip) → check_addrs net host addrs ≡ none → all_public addrs ≡ true
  unfolding check_addrs
  check_addrs-none host [] h = cc
  check_addrs-none host (a ∷ addrs) h = elim (Option-cases (first_private (a ∷ addrs))) [
    | inl e ↦ ground (arith, first_private-none (a ∷ addrs) e)
    | inr (b, e) ↦ ground (arith, e, h)
  ]

  check_resolved-none : (host : Text) → check_resolved net host ≡ none → host_public net host ≡ true
  unfolding check_resolved
  check_resolved-none host h = elim (Option-cases (net.parse_ip host)) [
    | inr (ip, e) ↦ ground (arith, e, h)
    | inl e ↦ elim (Option-cases (net.lookup_ip host)) [
      | inl f ↦ ground (arith, e, f, h)
      | inr (addrs, f) ↦ ground (arith, e, f, h, check_addrs-none host addrs)
    ]
  ]

  check_host-none :
      (host : Text)
      → check_host net false host ≡ none
      → (is_empty host ≡ false) × (is_loopback_name host ≡ false) × (host_public net host ≡ true)
  unfolding check_host
  check_host-none host h = ground (arith, check_resolved-none host)

  check_url-accepted :
      (u v : Url)
      → check_url net u ≡ accepted v
      → (u ≡ v)
        × ((eqb v.scheme (bytes "http") || eqb v.scheme (bytes "https")) ≡ true)
        × (v.has_user ≡ false)
  unfolding check_url
  check_url-accepted u v h = ground arith

  parse-accepted :
      (raw : Text) (v : Url)
      → parse net raw ≡ accepted v
      → (net.parse_url raw ≡ some v)
        × ((eqb v.scheme (bytes "http") || eqb v.scheme (bytes "https")) ≡ true)
        × (v.has_user ≡ false)
  unfolding parse
  parse-accepted raw v h = elim (Option-cases (net.parse_url raw)) [
    | inl e ↦ ground (arith, e, h)
    | inr (u, e) ↦ ground (arith, e, h, check_url-accepted u v)
  ]

  Answer-cases :
      {A : Type 0} (a : Answer A) → ((x : A) × (a ≡ accepted x)) ⊎ ((r : Refusal) × (a ≡ refused r))
  Answer-cases (accepted x) = inl (x, refl)
  Answer-cases (refused r) = inr (r, refl)

  accept_url-accepted :
      (raw n : Text) (u : Url)
      → accept_url net false raw u ≡ accepted n
      → (n ≡ name raw) × (is_loopback_name u.hostname ≡ false) × (host_public net u.hostname ≡ true)
  unfolding accept_url
  accept_url-accepted raw n u h = elim (Option-cases (check_host net false u.hostname)) [
    | inl e ↦ ground (arith, e, h, check_host-none u.hostname e)
    | inr (r, e) ↦ ground (arith, e, h)
  ]

  -- Without leave for private hosts, a typed URL that is accepted parses, is one of http or https
  -- without credentials, and is stored under its name. Its host is no name of this machine, and is
  -- a public address or a name that resolves to at least one address and to public ones alone.
  pub accept-public :
      (raw n : Text)
      → accept net false raw ≡ accepted n
      → (u : Url) × (net.parse_url (trim_space raw) ≡ some u)
        × ((eqb u.scheme (bytes "http") || eqb u.scheme (bytes "https")) ≡ true)
        × (u.has_user ≡ false)
        × (n ≡ name (trim_space raw))
        × (is_loopback_name u.hostname ≡ false)
        × (host_public net u.hostname ≡ true)
  unfolding accept
  accept-public raw n h = elim (Answer-cases (parse net (trim_space raw))) [
    | inr (r, e) ↦ ground (arith, e, h)
    | inl (u, e) ↦
        let (a, b, c) = parse-accepted (trim_space raw) u e in
        let (x, y, z) = accept_url-accepted (trim_space raw) n u (ground (arith, e, h)) in
        (u, a, b, c, x, y, z)
  ]
