-- ===== src/Model/Aggregate/Sums.antt =====
-- HostSummaries and CountsByResourceType of internal/model/aggregate.go: no request is lost or
-- counted twice.
use mathlib.Core.List.{Permᴰ}
use wsaw.Prelude.{
  ℕ, ◌+◌, ◌≡◌, refl, ap, ◌∙◌, Bool, true, not, ◌&&◌, ◌||◌, Option, none, some, Option-cases, inl,
  inr, List, [], ◌∷◌, map, arith, if◌then◌else◌, count_if, length, Bool-cases,
}
use wsaw.Prelude.Text.{Text, eqb}
use wsaw.Prelude.Assoc
use wsaw.Prelude.Assoc.{MapOrder}
use wsaw.Prelude.Sort.{sort_stable, insert}
use wsaw.Model.Enums.{Party, is_pre}
use wsaw.Model.Request.{Request}
use wsaw.Model.Result.{Result, network_count}
use wsaw.Model.Aggregate.{
  HostSummary, Acc, key_of_request, new_acc, acc_at, add_request, by_domain, finished, summary_less,
  host_summaries, type_of_request, count_at, counts_from, counts_by_resource_type,
}

abbrev pub sum_by {ℓ} : {A : Type ℓ} → (A → ℕ) → List A → ℕ
sum_by f [] = 0
sum_by f (x ∷ xs) = f x + sum_by f xs

sum_by-map :
    {A B : Type 0} (f : B → ℕ) (g : A → B) (xs : List A)
    → sum_by f (map g xs) ≡ sum_by (λ x. f (g x)) xs
sum_by-map f g [] = refl
sum_by-map f g (x ∷ xs) = ap (λ n. f (g x) + n) (sum_by-map f g xs)

sum_by-Permᴰ : {A : Type 0} (f : A → ℕ) {xs ys : List A} → Permᴰ xs ys → sum_by f xs ≡ sum_by f ys
sum_by-Permᴰ f Permᴰ.nil = refl
sum_by-Permᴰ f (Permᴰ.cons e r) = omega (arith, ap f e, sum_by-Permᴰ f r)
sum_by-Permᴰ f (Permᴰ.swap e g) = omega (arith, ap f e, ap f g)
sum_by-Permᴰ f (Permᴰ.trans r s) = sum_by-Permᴰ f r ∙ sum_by-Permᴰ f s

sum_by-insert :
    {A : Type 0} (f : A → ℕ) (less : A → A → Bool) (x : A) (xs : List A)
    → sum_by f (insert less x xs) ≡ f x + sum_by f xs
unfolding insert
sum_by-insert f less x [] = refl
sum_by-insert f less x (y ∷ ys) = elim (Bool-cases (less y x)) [
  | inl e ↦ rw e (omega (arith, sum_by-insert f less x ys))
  | inr e ↦ rw e refl
]

sum_by-sort_stable :
    {A : Type 0} (f : A → ℕ) (less : A → A → Bool) (xs : List A)
    → sum_by f (sort_stable less xs) ≡ sum_by f xs
unfolding sort_stable
sum_by-sort_stable f less [] = refl
sum_by-sort_stable f less (x ∷ xs) =
    sum_by-insert f less x (sort_stable less xs) ∙ ap (λ n. f x + n) (sum_by-sort_stable f less xs)

module _ {V : Type 0} (f : V → ℕ) where
  abbrev total : List (Text × V) → ℕ
  total = sum_by (λ e. f e.1)

  abbrev weight : Option V → ℕ
  weight none = 0
  weight (some v) = f v

  -- A map that takes a new value at a key loses the weight of the old one.
  total-set :
      (k : Text) (v : V) (m : List (Text × V))
      → total (Assoc.set k v m) + weight (Assoc.lookup k m) ≡ total m + f v
  unfolding Assoc.set Assoc.lookup
  total-set k v [] = omega arith
  total-set k v ((j, w) ∷ m) = elim (Bool-cases (eqb j k)) [
    | inl e ↦ rw e (omega arith)
    | inr e ↦ rw e (omega (arith, total-set k v m))
  ]

module _ (f : HostSummary → ℕ) (p : Request → Bool)
    (start : (k : Text) (y : Party) → f (new_acc k y).summary ≡ 0)
    (step : (q : Request) (a : Acc)
      → f (add_request q a).summary ≡ f a.summary + (if p q then 1 else 0))
    (end : (e : Text × Acc) → f (finished e) ≡ f e.1.summary) where
  abbrev of_acc : Acc → ℕ
  of_acc a = f a.summary

  abbrev counted : Request → Bool
  counted q = not q.non_network && p q

  acc_at-weight :
      (q : Request) (m : List (Text × Acc))
      → of_acc (acc_at q m) ≡ weight of_acc (Assoc.lookup (key_of_request q) m)
  acc_at-weight q m = elim (Option-cases (Assoc.lookup (key_of_request q) m)) [
    | inl e ↦ ground (arith, e, start (key_of_request q) q.party)
    | inr (a, e) ↦ ground (arith, e)
  ]

  by_domain-total :
      (m : List (Text × Acc)) (qs : List Request)
      → total of_acc (by_domain m qs) ≡ total of_acc m + count_if counted qs
  unfolding by_domain count_if
  by_domain-total m [] = omega arith
  by_domain-total m (q ∷ qs) = elim (Bool-cases q.non_network) [
    | inl e ↦ simp e (omega (arith, by_domain-total m qs))
    | inr e ↦
        let a : Acc = add_request q (acc_at q m) in
        simp e (
          omega (
            arith,
            by_domain-total (Assoc.set (key_of_request q) a m) qs,
            total-set of_acc (key_of_request q) a m,
            acc_at-weight q m,
            step q (acc_at q m),
          ))
  ]

  sum_by-finished : (m : List (Text × Acc)) → sum_by f (map finished m) ≡ total of_acc m
  sum_by-finished [] = refl
  sum_by-finished (e ∷ m) = omega (arith, end e, sum_by-finished m)

  host_summaries-total :
      (order : MapOrder) (r : Result)
      → sum_by f (host_summaries order r) ≡ count_if counted r.requests
  unfolding host_summaries
  host_summaries-total order r =
      let m = by_domain [] r.requests in
      omega (
        arith,
        sum_by-sort_stable f summary_less (map finished (order.visit 0 m)),
        sum_by-finished (order.visit 0 m),
        sum_by-Permᴰ (λ e. of_acc e.1) (order.visit-Permᴰ 0 m),
        by_domain-total [] r.requests,
      )

plain :
    (qs : List Request)
    → count_if (λ q. not q.non_network && true) qs ≡ count_if (λ q. not q.non_network) qs
unfolding count_if
plain [] = refl
plain (q ∷ qs) = ground (arith, plain qs)

-- In whatever order the map is visited, the summaries of the domains count every request that went
-- to the network once, and so they do those before consent and those that failed or were blocked.
pub host_summaries-sums :
    (order : MapOrder) (r : Result)
    → (sum_by (λ s. s.requests) (host_summaries order r) ≡ network_count r.requests)
      × (sum_by (λ s. s.pre_consent) (host_summaries order r)
          ≡ count_if (λ q. not q.non_network && is_pre q.phase) r.requests)
      × (sum_by (λ s. s.failed) (host_summaries order r)
          ≡ count_if (λ q. not q.non_network && (q.failed || q.blocked)) r.requests)
unfolding network_count add_request finished
host_summaries-sums order r = (
  host_summaries-total (λ s. s.requests) (λ q. true) (λ k y. refl) (λ q a. ground arith) (λ e. refl)
        order r
      ∙ plain r.requests,
  host_summaries-total (λ s. s.pre_consent) (λ q. is_pre q.phase) (λ k y. refl)
      (λ q a. ground arith) (λ e. refl) order r,
  host_summaries-total (λ s. s.failed) (λ q. q.failed || q.blocked) (λ k y. refl)
      (λ q a. ground arith) (λ e. refl) order r,
)

count_at-weight :
    (t : Text) (m : List (Text × ℕ)) → count_at t m ≡ weight (λ n. n) (Assoc.lookup t m)
count_at-weight t m = elim (Option-cases (Assoc.lookup t m)) [
  | inl e ↦ ground (arith, e)
  | inr (n, e) ↦ ground (arith, e)
]

-- The counts by type of resource add up to the number of requests.
counts_from-total :
    (m : List (Text × ℕ)) (qs : List Request)
    → total (λ n. n) (counts_from m qs) ≡ total (λ n. n) m + length qs
unfolding counts_from
counts_from-total m [] = omega arith
counts_from-total m (q ∷ qs) = omega (
  arith,
  counts_from-total (Assoc.set (type_of_request q) (count_at (type_of_request q) m + 1) m) qs,
  total-set (λ n. n) (type_of_request q) (count_at (type_of_request q) m + 1) m,
  count_at-weight (type_of_request q) m,
)

counts_by_resource_type-total :
    (r : Result) → total (λ n. n) (counts_by_resource_type r) ≡ length r.requests
unfolding counts_by_resource_type
counts_by_resource_type-total r = omega (arith, counts_from-total [] r.requests)
