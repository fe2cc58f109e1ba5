-- ===== src/StdMap/Laws.antt =====
-- What the operations of a map with distinct keys make of `find`.
use tms.Prelude.{
  ℕ, none, some, true, false, List, [], ◌∷◌, if◌then◌else◌, ◌≡◌, refl, sym, ap, ◌∙◌, arith,
  Bool-cases, Option-cases, inl, inr, ◌==◌, ap₂,
}
use tms.Any.{same}
use tms.StdMap.{StdMap, empty, entry, find, insert, assign, replace, erase, less}

pub same_refl : (s : List ℕ) → same s s ≡ true
unfolding same
same_refl [] = refl
same_refl (x ∷ s) = ground (arith, same_refl s)

pub same-eq : (s t : List ℕ) → same s t ≡ true → s ≡ t
unfolding same
same-eq [] [] e = refl
same-eq [] (y ∷ t) e = cc
same-eq (x ∷ s) [] e = cc
same-eq (x ∷ s) (y ∷ t) e = elim (Bool-cases (x == y)) [
  | inl p ↦ ap₂ ◌∷◌ (ground arith) (same-eq s t (ground arith))
  | inr p ↦ absurd (ground arith)
]

-- A key that is `key` is not one that `key` is not.
pub same_apart : (k key j : List ℕ) → same k key ≡ false → same key j ≡ true → same k j ≡ false
same_apart k key j p q = ap (same k) (sym (same-eq key j q)) ∙ p

same_alike : (k key j : List ℕ) → same k key ≡ true → same key j ≡ same k j
same_alike k key j p = ap (λ t. same t j) (sym (same-eq k key p))

pub same_comm : (s t : List ℕ) → same s t ≡ same t s
unfolding same
same_comm [] [] = refl
same_comm [] (y ∷ t) = refl
same_comm (x ∷ s) [] = refl
same_comm (x ∷ s) (y ∷ t) = ground (arith, same_comm s t)

module _ {ℓ} {A : Type ℓ} where
  -- Every key once.
  abbrev pub Distinct : StdMap A → Type ℓ
  Distinct empty = Unit
  Distinct (entry k v m) = (find k m ≡ none) × Distinct m

  find-same : (k j : List ℕ) (m : StdMap A) → same k j ≡ true → find k m ≡ find j m
  find-same k j m e = ap (λ t. find t m) (same-eq k j e)

  pub find-insert :
      (key j : List ℕ) (v : A) (m : StdMap A)
      → find key m ≡ none
      → find j (insert key v m) ≡ (if same key j then some v else find j m)
  unfolding find insert
  find-insert key j v empty e = refl
  find-insert key j v (entry k w m) e = ground (arith, find-insert key j v m, same_apart k key j)

  pub insert-Distinct :
      (key : List ℕ) (v : A) (m : StdMap A)
      → find key m ≡ none
      → Distinct m
      → Distinct (insert key v m)
  unfolding find insert
  insert-Distinct key v empty e d = (refl, tt)
  insert-Distinct key v (entry k w m) e (f, d) = elim (Bool-cases (same k key)) [
    | inl p ↦ rw p (f, d)
    | inr p ↦ elim (Bool-cases (less key k)) [
      | inl q ↦ rw (p, q) (e, (f, d))
      | inr q ↦
          rw (p, q)
            (
              ground (arith, find-insert key k v m, same_comm k key),
              insert-Distinct key v m (ground arith) d,
            )
    ]
  ]

  find-replace :
      (key j : List ℕ) (v w : A) (m : StdMap A)
      → find key m ≡ some w
      → find j (replace key v m) ≡ (if same key j then some v else find j m)
  unfolding find replace
  find-replace key j v w empty e = cc
  find-replace key j v w (entry k x m) e =
      ground (arith, find-replace key j v w m, same_apart k key j, same_alike k key j)

  replace-Distinct :
      (key : List ℕ) (v w : A) (m : StdMap A)
      → find key m ≡ some w
      → Distinct m
      → Distinct (replace key v m)
  unfolding find replace
  replace-Distinct key v w empty e d = tt
  replace-Distinct key v w (entry k x m) e (f, d) = elim (Bool-cases (same k key)) [
    | inl p ↦ rw p (f, d)
    | inr p ↦ rw p (
      ground (arith, find-replace key k v w m, same_comm k key),
      replace-Distinct key v w m (ground arith) d,
    )
  ]

  pub find-assign :
      (key j : List ℕ) (v : A) (m : StdMap A)
      → find j (assign key v m) ≡ (if same key j then some v else find j m)
  unfolding assign
  find-assign key j v m = elim (Option-cases (find key m)) [
    | inl e ↦ rw (e, assign) (find-insert key j v m e)
    | inr (w, e) ↦ rw (e, assign) (find-replace key j v w m e)
  ]

  pub assign-Distinct :
      (key : List ℕ) (v : A) (m : StdMap A) → Distinct m → Distinct (assign key v m)
  unfolding assign
  assign-Distinct key v m d = elim (Option-cases (find key m)) [
    | inl e ↦ rw (e, assign) (insert-Distinct key v m e d)
    | inr (w, e) ↦ rw (e, assign) (replace-Distinct key v w m e d)
  ]

  pub find-erase :
      (key j : List ℕ) (m : StdMap A)
      → Distinct m
      → find j (erase key m) ≡ (if same key j then none else find j m)
  unfolding find erase
  find-erase key j empty d = ground arith
  find-erase key j (entry k w m) (f, d) =
      ground (arith, find-erase key j m d, same_apart k key j, same_alike k key j, find-same k j m)

  pub erase-Distinct : (key : List ℕ) (m : StdMap A) → Distinct m → Distinct (erase key m)
  unfolding erase
  erase-Distinct key empty d = tt
  erase-Distinct key (entry k w m) (f, d) = elim (Bool-cases (same k key)) [
    | inl p ↦ rw p d
    | inr p ↦ rw p (ground (arith, find-erase key k m d, same_comm k key), erase-Distinct key m d)
  ]
