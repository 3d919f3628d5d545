-- ===== src/Diff/Extends.antt =====
-- No comparison of internal/diff/diff.go loses what is reported already.
use mathlib.Core.Logic.{∥∥₁_map}
use mathlib.Core.List.{
  Permᴰ, Mem, Memᴰ, mem-append_left, mem-append_right, mem-cons_self, mem-cons_of_mem,
}
use mathlib.Core.List.Perm
use wsaw.Prelude.{
  ℕ, ◌≡◌, refl, sym, ap, subst, ◌∙◌, inl, inr, some, List, [], ◌∷◌, arith, Bool-cases,
}
use wsaw.Prelude.Text.{Text, eqb, eqb_iff}
use wsaw.Prelude.Assoc
use wsaw.Prelude.Assoc.{MapOrder}
use wsaw.Classify.{Domains}
use wsaw.Diff.Change.{Change, Report}
use wsaw.Diff.HostList.{list_empty}
use wsaw.Diff.Differ.{Differ, Effect, apply, for_each}
use wsaw.Diff.Compare.{
  compare_hosts, compare_assets, compare_scripts, compare_cookies, compare_storage,
  compare_statuses, compare_consent, flag_denied_hosts, flag_degradation, degradations, comparisons,
}
use wsaw.Diff.Loops.{emitted, for_each_lem}

-- An entry that is found stands in the map.
mem_of_lookup :
    {V : Type 0} (k : Text) (v : V) (m : List (Text × V)) → Assoc.lookup k m ≡ some v → Mem (k, v) m
unfolding Assoc.lookup
mem_of_lookup k v [] h = cc
mem_of_lookup k v ((j, w) ∷ m) h = elim (Bool-cases (eqb j k)) [
  | inl e ↦ subst (λ x. Mem x ((j, w) ∷ m)) (ground (arith, eqb_iff j k)) mem-cons_self
  | inr e ↦ mem-cons_of_mem (j, w) (mem_of_lookup k v m (ground arith))
]

pub mem-perm {ℓ} : {A : Type ℓ} {a : A} {xs ys : List A} → Permᴰ xs ys → Mem a xs → Mem a ys
mem-perm p m = (Perm.mem_iff ∣ p ∣₁).0 m

-- Nothing that is reported is lost again.
abbrev pub Extends : Report → Report → Type 0
Extends r r' = (c : Change) → Mem c r.changes → Mem c r'.changes

pub for_each-Extends {ℓ} :
    {A : Type ℓ} (f : A → Effect) (xs : List A) (r : Report) → Extends r (for_each f xs r)
for_each-Extends f xs r c m = rw (for_each_lem f xs r) (mem-append_left (emitted f xs) m)

Memᴰ-effect :
    (g : Effect) (c : Change) (cs : List Change)
    → Memᴰ c cs
    → Memᴰ c (elim g [ Effect.emit b ↦ b ∷ cs | _ ↦ cs ])
Memᴰ-effect Effect.skip c cs m = m
Memᴰ-effect Effect.hide c cs m = m
Memᴰ-effect (Effect.emit b) c cs m = Memᴰ.tail m

Memᴰ-emitted {ℓ} :
    {A : Type ℓ} (f : A → Effect) (a : A) (c : Change)
    → f a ≡ Effect.emit c
    → {xs : List A} → Memᴰ a xs
    → Memᴰ c (emitted f xs)
unfolding emitted
Memᴰ-emitted f a c e (Memᴰ.head {x = x} {xs = xs} h) =
    subst (λ g. Memᴰ c (elim g [ Effect.emit b ↦ b ∷ emitted f xs | _ ↦ emitted f xs ]))
      (sym e ∙ ap f h) (Memᴰ.head refl)
Memᴰ-emitted f a c e (Memᴰ.tail {x = x} {xs = xs} m) =
    Memᴰ-effect (f x) c (emitted f xs) (Memᴰ-emitted f a c e m)

mem-emitted {ℓ} :
    {A : Type ℓ} (f : A → Effect) (a : A) (c : Change) {xs : List A}
    → f a ≡ Effect.emit c
    → Mem a xs
    → Mem c (emitted f xs)
mem-emitted f a c {xs} e m = ∥∥₁_map {B = Memᴰ c (emitted f xs)} m (Memᴰ-emitted f a c e)

pub loop-reports :
    {V : Type 0} (o : MapOrder) (n : ℕ) (f : Text × V → Effect) (m : List (Text × V)) (r : Report)
    (k : Text) (v : V) (c : Change)
    → Assoc.lookup k m ≡ some v
    → f (k, v) ≡ Effect.emit c
    → Mem c (for_each f (o.visit n m) r).changes
loop-reports o n f m r k v c h e = rw (for_each_lem f (o.visit n m) r) (
    mem-append_right r.changes
      (mem-emitted f (k, v) c e (mem-perm (o.visit-Permᴰ n m) (mem_of_lookup k v m h))))

module _ {F : Type 0} (dm : Domains) (o : MapOrder) (d : Differ F) where
  apply-Extends : (e : Effect) (r : Report) → Extends r (apply e r)
  unfolding apply
  apply-Extends Effect.skip r c m = m
  apply-Extends Effect.hide r c m = m
  apply-Extends (Effect.emit b) r c m = mem-append_left (b ∷ []) m

  hosts-Extends : (r : Report) → Extends r (compare_hosts dm o d r)
  unfolding compare_hosts
  hosts-Extends r c m = for_each-Extends _ _ _ c (for_each-Extends _ _ r c m)

  -- What stands in the report when the consent is compared is in the final one.
  after_consent : (r : Report) → Extends r (flag_degradation dm o d r)
  unfolding flag_degradation
  after_consent r c m = mem-append_left (degradations dm o d) m

  denied-Extends : (r : Report) → Extends r (flag_denied_hosts dm o d r)
  unfolding flag_denied_hosts
  denied-Extends r c m = elim (Bool-cases (list_empty d.rules.deny)) [
    | inl e ↦ rw e m
    | inr e ↦ rw e (for_each-Extends _ _ r c m)
  ]

  -- The comparisons that follow the one of the scripts.
  abbrev tail_comparisons : Report → Report
  tail_comparisons r = flag_degradation dm o d (
      flag_denied_hosts dm o d (
        compare_consent dm o d
          (compare_statuses dm o d (compare_storage dm o d (compare_cookies dm o d r)))))

  tail-Extends : (r : Report) → Extends r (tail_comparisons r)
  unfolding compare_consent compare_statuses compare_storage compare_cookies
  tail-Extends r c m = after_consent _ c (
      denied-Extends _ c (
        apply-Extends _ _ c (
          for_each-Extends _ _ _ c (
            for_each-Extends _ _ _ c
              (for_each-Extends _ _ _ c (for_each-Extends _ _ _ c (for_each-Extends _ _ r c m)))))))

  pub comparisons-host :
      (r : Report) (c : Change)
      → Mem c (compare_hosts dm o d r).changes
      → Mem c (comparisons dm o d r).changes
  unfolding comparisons compare_assets compare_scripts
  comparisons-host r c m =
      tail-Extends _ c
        (for_each-Extends _ _ _ c (for_each-Extends _ _ _ c (for_each-Extends _ _ _ c m)))

  pub comparisons-script :
      (r : Report) (c : Change)
      → Mem c (compare_scripts dm o d (compare_assets dm o d (compare_hosts dm o d r))).changes
      → Mem c (comparisons dm o d r).changes
  unfolding comparisons
  comparisons-script r c m = tail-Extends _ c m

  pub comparisons-denied :
      (r : Report) (c : Change)
      → ((q : Report) → Mem c (flag_denied_hosts dm o d q).changes)
      → Mem c (comparisons dm o d r).changes
  unfolding comparisons
  comparisons-denied r c m = after_consent _ c (m _)

  pub comparisons-cookie :
      (r : Report) (c : Change)
      → ((q : Report) → Mem c (compare_cookies dm o d q).changes)
      → Mem c (comparisons dm o d r).changes
  unfolding comparisons compare_storage compare_statuses compare_consent
  comparisons-cookie r c m = after_consent _ c (
      denied-Extends _ c (
        apply-Extends _ _ c
          (for_each-Extends _ _ _ c (for_each-Extends _ _ _ c (for_each-Extends _ _ _ c (m _))))))
