-- ===== src/Store/Index/Rising.antt =====
-- Strictly rising lists of texts, the order in which the queries return references.
use wsaw.Prelude.{
  ◌≡◌, refl, ap, ◌∙◌, Bool, true, false, Bool-cases, inl, inr, List, [], ◌∷◌, ◌++◌, arith,
  if◌then◌else◌, keep_if, All, All-map,
}
use wsaw.Prelude.Text.{Text, less, less_irrefl, less_asymm, less_cotrans, eq_of_not-less}
use wsaw.Store.Index.{insert_text, rising}

pub less_trans : (s t u : Text) → less s t ≡ true → less t u ≡ true → less s u ≡ true
less_trans s t u h k = ground (arith, less_cotrans s u t h, less_asymm t u k)

abbrev pub IsRising : List Text → Type 0
IsRising [] = Unit {0}
IsRising (t ∷ ts) = All (λ u. less t u ≡ true) ts × IsRising ts

All-insert_text :
    (t s : Text) (ts : List Text)
    → less t s ≡ true
    → All (λ u. less t u ≡ true) ts
    → All (λ u. less t u ≡ true) (insert_text s ts)
unfolding insert_text
All-insert_text t s [] h hs = (h, tt)
All-insert_text t s (u ∷ ts) h hs = elim (Bool-cases (less s u)) [
  | inl e ↦ rw (insert_text, e) (h, hs)
  | inr e ↦ elim (Bool-cases (less u s)) [
    | inl f ↦ rw (insert_text, e, f) (hs.0, All-insert_text t s ts h hs.1)
    | inr f ↦ rw (insert_text, e, f) hs
  ]
]

insert_text-IsRising : (s : Text) (ts : List Text) → IsRising ts → IsRising (insert_text s ts)
unfolding insert_text
insert_text-IsRising s [] r = (tt, tt)
insert_text-IsRising s (u ∷ ts) r = elim (Bool-cases (less s u)) [
  | inl e ↦ rw (insert_text, e) ((e, All-map ts (λ v h. less_trans s u v e h) r.0), r)
  | inr e ↦ elim (Bool-cases (less u s)) [
    | inl f ↦ rw (insert_text, e, f) (All-insert_text u s ts f r.0, insert_text-IsRising s ts r.1)
    | inr f ↦ rw (insert_text, e, f) r
  ]
]

pub rising-IsRising : (ss : List Text) → IsRising (rising ss)
unfolding rising
rising-IsRising [] = tt
rising-IsRising (s ∷ ss) = insert_text-IsRising s (rising ss) (rising-IsRising ss)

-- Past a text, of all the items past it.
keep_if-past :
    (l t : Text) (ts : List Text)
    → less l t ≡ true
    → All (λ u. less t u ≡ true) ts
    → keep_if (less l) ts ≡ ts
unfolding keep_if
keep_if-past l t [] h hs = refl
keep_if-past l t (u ∷ ts) h hs = ground (arith, less_trans l t u h hs.0, keep_if-past l t ts h hs.1)

keep_if-insert_text :
    (l s : Text) (ts : List Text)
    → IsRising ts
    → keep_if (less l) (insert_text s ts)
      ≡ (if less l s then insert_text s (keep_if (less l) ts) else keep_if (less l) ts)
unfolding keep_if insert_text
keep_if-insert_text l s [] r = refl
keep_if-insert_text l s (u ∷ ts) r = ground (
  arith,
  keep_if-insert_text l s ts r.1,
  less_trans l s u,
  less_trans l u s,
  eq_of_not-less s u,
  λ (e : s ≡ u). ap (less l) e,
)

pub keep_if-rising :
    (l : Text) (ss : List Text) → keep_if (less l) (rising ss) ≡ rising (keep_if (less l) ss)
unfolding keep_if rising
keep_if-rising l [] = refl
keep_if-rising l (s ∷ ss) =
    ground (arith, keep_if-insert_text l s (rising ss) (rising-IsRising ss), keep_if-rising l ss)

-- The last of some items.
unfoldable pub last_of : Text → List Text → Text
last_of t [] = t
last_of t (u ∷ us) = last_of u us

pub last_of-past :
    (t : Text) (us vs : List Text)
    → IsRising (t ∷ us ++ vs)
    → All (λ v. less (last_of t us) v ≡ true) vs
unfolding last_of
last_of-past t [] vs r = r.0
last_of-past t (u ∷ us) vs r = last_of-past u us vs r.1

pub last_of-greatest :
    (t : Text) (us vs : List Text)
    → IsRising (t ∷ us ++ vs)
    → (less (last_of t us) t ≡ false) × All (λ u. less (last_of t us) u ≡ false) us
unfolding last_of
last_of-greatest t [] vs r = (less_irrefl t, tt)
last_of-greatest t (u ∷ us) vs r =
    let (a, b) = last_of-greatest u us vs r.1 in
    (ground (arith, less_trans (last_of u us) t u, a, r.0.0), (a, b))

keep_if-passing : (p : Text → Bool) (ts : List Text) → All (λ t. p t ≡ true) ts → keep_if p ts ≡ ts
unfolding keep_if
keep_if-passing p [] h = refl
keep_if-passing p (t ∷ ts) h = ground (arith, keep_if-passing p ts h.1)

keep_if-failing :
    (p : Text → Bool) (ts us : List Text)
    → All (λ t. p t ≡ false) ts
    → keep_if p (ts ++ us) ≡ keep_if p us
unfolding keep_if
keep_if-failing p [] us h = refl
keep_if-failing p (t ∷ ts) us h = ground (arith, keep_if-failing p ts us h.1)

-- Of a rising list, the items past the last of a first part are the rest.
pub keep_if-rest :
    (t : Text) (us vs : List Text)
    → IsRising (t ∷ us ++ vs)
    → keep_if (less (last_of t us)) (t ∷ us ++ vs) ≡ vs
keep_if-rest t us vs r =
    keep_if-failing (less (last_of t us)) (t ∷ us) vs (last_of-greatest t us vs r)
    ∙ keep_if-passing (less (last_of t us)) vs (last_of-past t us vs r)

pub last_of-All :
    (P : Text → Type 0) (t : Text) (us : List Text) → P t → All P us → P (last_of t us)
unfolding last_of
last_of-All P t [] h hs = h
last_of-All P t (u ∷ us) h hs = last_of-All P u us hs.0 hs.1

pub All-insert :
    (P : Text → Type 0) (s : Text) (ts : List Text) → P s → All P ts → All P (insert_text s ts)
unfolding insert_text
All-insert P s [] h hs = (h, tt)
All-insert P s (u ∷ ts) h hs = elim (Bool-cases (less s u)) [
  | inl e ↦ rw (insert_text, e) (h, hs)
  | inr e ↦ elim (Bool-cases (less u s)) [
    | inl f ↦ rw (insert_text, e, f) (hs.0, All-insert P s ts h hs.1)
    | inr f ↦ rw (insert_text, e, f) hs
  ]
]

pub All-rising : (P : Text → Type 0) (ss : List Text) → All P ss → All P (rising ss)
unfolding rising
All-rising P [] h = tt
All-rising P (s ∷ ss) h = All-insert P s (rising ss) h.0 (All-rising P ss h.1)
