-- ===== src/Diff/Loops.antt =====
-- What a loop of the comparison adds to the report, whatever the order of its map.
use mathlib.Core.List.{Permᴰ}
use wsaw.Prelude.{
  ℕ, suc, ◌+◌, ◌≤◌, ◌≡◌, refl, sym, ap, subst, ◌∙◌, inl, inr, true, false, none, List, [], ◌∷◌,
  ◌++◌, append_assoc, append-nil, arith, length, keep_if, keep_if-perm, Bool-cases, Permᴰ-refl,
}
use wsaw.Prelude.Text.{Text, eqb_iff, less_asymm, less_cotrans, eq_of_not-less}
use wsaw.Prelude.Assoc
use wsaw.Prelude.Assoc.{MapOrder}
use wsaw.Prelude.Sort.{tie, IsOrder}
use wsaw.Diff.Change.{Change, Report, type_text}
use wsaw.Diff.Differ.{Effect, apply, for_each, change_less}

apply-append :
    (e : Effect) (r : Report) (cs : List Change) (n : ℕ)
    → record (apply e r) {
      changes = (apply e r).changes ++ cs;
      suppressed = (apply e r).suppressed + n;
    }
      ≡ record r {
        changes = r.changes ++ elim e [ Effect.emit c ↦ c ∷ cs | _ ↦ cs ];
        suppressed = r.suppressed + elim e [ Effect.hide ↦ suc n | _ ↦ n ];
      }
unfolding apply
apply-append Effect.skip r cs n = refl
apply-append Effect.hide r cs n = ground arith
apply-append (Effect.emit c) r cs n = ground (arith, append_assoc r.changes (c ∷ []) cs)

effects-cons :
    (e : Effect) {cs ds : List Change}
    → Permᴰ cs ds
    → Permᴰ
        (elim e [ Effect.emit c ↦ c ∷ cs | _ ↦ cs ])
        (elim e [ Effect.emit c ↦ c ∷ ds | _ ↦ ds ])
effects-cons Effect.skip p = p
effects-cons Effect.hide p = p
effects-cons (Effect.emit c) p = Permᴰ.cons refl p

effects-swap :
    (e g : Effect) (cs : List Change)
    → Permᴰ
        (elim e [
          | Effect.emit c ↦ c ∷ elim g [ Effect.emit b ↦ b ∷ cs | _ ↦ cs ]
          | _ ↦ elim g [ Effect.emit b ↦ b ∷ cs | _ ↦ cs ]
        ])
        (elim g [
          | Effect.emit b ↦ b ∷ elim e [ Effect.emit c ↦ c ∷ cs | _ ↦ cs ]
          | _ ↦ elim e [ Effect.emit c ↦ c ∷ cs | _ ↦ cs ]
        ])
effects-swap Effect.skip g cs = effects-cons g (Permᴰ-refl cs)
effects-swap Effect.hide g cs = effects-cons g (Permᴰ-refl cs)
effects-swap (Effect.emit c) Effect.skip cs = Permᴰ-refl (c ∷ cs)
effects-swap (Effect.emit c) Effect.hide cs = Permᴰ-refl (c ∷ cs)
effects-swap (Effect.emit c) (Effect.emit b) cs = Permᴰ.swap refl refl

module _ {ℓ} {A : Type ℓ} (f : A → Effect) where
  unfoldable pub emitted : List A → List Change
  emitted [] = []
  emitted (x ∷ xs) = elim (f x) [ Effect.emit c ↦ c ∷ emitted xs | _ ↦ emitted xs ]

  unfoldable pub hidden : List A → ℕ
  hidden [] = 0
  hidden (x ∷ xs) = elim (f x) [ Effect.hide ↦ suc (hidden xs) | _ ↦ hidden xs ]

  -- A loop appends what its passes emit and counts what they hide, and does nothing else.
  pub for_each_lem :
      (xs : List A) (r : Report)
      → for_each f xs r
        ≡ record r { changes = r.changes ++ emitted xs; suppressed = r.suppressed + hidden xs }
  unfolding for_each emitted hidden
  for_each_lem [] r = ground (arith, append-nil r.changes)
  for_each_lem (x ∷ xs) r =
      for_each_lem xs (apply (f x) r) ∙ apply-append (f x) r (emitted xs) (hidden xs)

  emitted-Permᴰ : {xs ys : List A} → Permᴰ xs ys → Permᴰ (emitted xs) (emitted ys)
  unfolding emitted
  emitted-Permᴰ Permᴰ.nil = Permᴰ.nil
  emitted-Permᴰ (Permᴰ.cons {a = x} {l₁ = xs} {l₂ = ys} e r) =
      subst (λ y. Permᴰ (emitted (x ∷ xs)) (emitted (y ∷ ys))) e
        (effects-cons (f x) (emitted-Permᴰ r))
  emitted-Permᴰ (Permᴰ.swap {a = x} {b = y} {b' = x'} {l = l} e g) =
      subst (λ z. Permᴰ (emitted (x ∷ y ∷ l)) (emitted (z ∷ x' ∷ l))) g
        (subst (λ z. Permᴰ (emitted (x ∷ y ∷ l)) (emitted (y ∷ z ∷ l))) e
          (effects-swap (f x) (f y) (emitted l)))
  emitted-Permᴰ (Permᴰ.trans r s) = Permᴰ.trans (emitted-Permᴰ r) (emitted-Permᴰ s)

  pub hidden-perm : {xs ys : List A} → Permᴰ xs ys → hidden xs ≡ hidden ys
  unfolding hidden
  hidden-perm Permᴰ.nil = refl
  hidden-perm (Permᴰ.cons e r) = ground (arith, hidden-perm r, ap f e)
  hidden-perm (Permᴰ.swap e g) = ground (arith, ap f e, ap f g)
  hidden-perm (Permᴰ.trans r s) = hidden-perm r ∙ hidden-perm s

pub change_less-IsOrder : IsOrder change_less
unfolding change_less
change_less-IsOrder = record {
  asymm = λ a b. ground (
    arith,
    less_asymm (type_text a.type) (type_text b.type),
    less_asymm a.subject b.subject,
    eqb_iff (type_text a.type) (type_text b.type),
    eqb_iff (type_text b.type) (type_text a.type),
  );
  cotrans = λ a b c. ground (
    arith,
    less_cotrans (type_text a.type) (type_text b.type) (type_text c.type),
    less_cotrans a.subject b.subject c.subject,
    eqb_iff (type_text a.type) (type_text c.type),
    eqb_iff (type_text a.type) (type_text b.type),
    eqb_iff (type_text b.type) (type_text c.type),
    eq_of_not-less (type_text a.type) (type_text b.type),
  );
}

pub subject_of_tie : (a b : Change) → tie change_less a b ≡ true → a.subject ≡ b.subject
unfolding change_less
subject_of_tie a b h = ground (
  arith,
  eq_of_not-less (type_text a.type) (type_text b.type),
  eq_of_not-less a.subject b.subject,
  eqb_iff (type_text a.type) (type_text b.type),
  eqb_iff (type_text b.type) (type_text a.type),
)

no_tie_step :
    (a : Change) (e : Effect) (cs : List Change)
    → ((c : Change) → e ≡ Effect.emit c → tie change_less a c ≡ false)
    → keep_if (tie change_less a) cs ≡ []
    → keep_if (tie change_less a) (elim e [ Effect.emit c ↦ c ∷ cs | _ ↦ cs ]) ≡ []
unfolding keep_if
no_tie_step a Effect.skip cs h k = k
no_tie_step a Effect.hide cs h k = k
no_tie_step a (Effect.emit c) cs h k = rw (h c refl) k

one_tie_step :
    (a : Change) (e : Effect) (cs : List Change)
    → ((c : Change)
        → e ≡ Effect.emit c
        → tie change_less a c ≡ true
        → keep_if (tie change_less a) cs ≡ [])
    → length (keep_if (tie change_less a) cs) ≤ 1
    → length (keep_if (tie change_less a) (elim e [ Effect.emit c ↦ c ∷ cs | _ ↦ cs ])) ≤ 1
unfolding keep_if
one_tie_step a Effect.skip cs h k = k
one_tie_step a Effect.hide cs h k = k
one_tie_step a (Effect.emit c) cs h k = elim (Bool-cases (tie change_less a c)) [
  | inl t ↦ rw t (rw (h c refl t) (omega arith))
  | inr t ↦ rw t k
]

-- The change of an entry has the entry's key for its subject.
abbrev pub Subjects : {V : Type 0} → (Text × V → Effect) → Type 0
Subjects {V} f = (key : Text) (v : V) (c : Change) → f (key, v) ≡ Effect.emit c → c.subject ≡ key

module _ {V : Type 0} (f : Text × V → Effect) (named : Subjects f) (a : Change) where
  no_tie :
      (m : List (Text × V))
      → Assoc.lookup a.subject m ≡ none
      → keep_if (tie change_less a) (emitted f m) ≡ []
  unfolding emitted keep_if Assoc.lookup
  no_tie [] h = refl
  no_tie ((key, v) ∷ m) h =
      no_tie_step a (f (key, v)) (emitted f m)
        (λ c e. elim (Bool-cases (tie change_less a c)) [
          | inl t ↦
              absurd (ground (arith, subject_of_tie a c t, named key v c e, eqb_iff key a.subject))
          | inr t ↦ t
        ])
        (no_tie m (ground arith))

  one_tie :
      (m : List (Text × V))
      → Assoc.Unique m
      → length (keep_if (tie change_less a) (emitted f m)) ≤ 1
  unfolding emitted keep_if
  one_tie [] u = omega arith
  one_tie ((key, v) ∷ m) u =
      one_tie_step a (f (key, v)) (emitted f m)
        (λ c e t.
          no_tie m (
            subst (λ k. Assoc.lookup k m ≡ none) (sym (subject_of_tie a c t ∙ named key v c e))
              u.0))
        (one_tie m u.1)

  -- So the changes of a loop that tie with one are the same, whatever the order of the loop.
  pub tie-visit :
      (o : MapOrder) (loop : ℕ) (m : List (Text × V))
      → Assoc.Unique m
      → keep_if (tie change_less a) (emitted f (o.visit loop m))
        ≡ keep_if (tie change_less a) (emitted f m)
  tie-visit o loop m u = sym (keep_if-perm _ (emitted-Permᴰ f (o.visit-Permᴰ loop m)) (one_tie m u))
