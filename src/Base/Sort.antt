-- ===== src/Base/Sort.antt =====
-- `sort.SliceStable`, for a `less` that is a strict weak order: the one arrangement that is in
-- order and leaves elements that compare equal as they stood.
use mathlib.Core.Path.{◌≡◌}
use mathlib.Core.Logic.{inl, inr}
use mathlib.Core.Bool.{Bool, true, false}
use mathlib.Core.List.{List, [], ◌∷◌, Perm}
use mathlib.Core.List.Perm
use synapse_oms.Base.Tests.{if◌then◌else◌, Bool-cases}
use synapse_oms.Base.Lists.{All}

module _ {ℓ} {A : Type ℓ} (less : A → A → Bool) where
  insert_stable : A → List A → List A
  insert_stable x [] = x ∷ []
  insert_stable x (y ∷ ys) =
      let later = y ∷ insert_stable x ys in if less y x then later else x ∷ y ∷ ys

  unfoldable pub slice_stable : List A → List A
  unfolding insert_stable
  slice_stable [] = []
  slice_stable (x ∷ xs) = insert_stable x (slice_stable xs)

  insert_stable-perm : (x : A) (ys : List A) → Perm (insert_stable x ys) (x ∷ ys)
  unfolding insert_stable
  insert_stable-perm x [] = Perm.refl (x ∷ [])
  insert_stable-perm x (y ∷ ys) = elim (Bool-cases (less y x)) [
    | inl e ↦ rw e (Perm.trans (Perm.cons y (insert_stable-perm x ys)) (Perm.swap x y ys))
    | inr e ↦ rw e (Perm.refl (x ∷ y ∷ ys))
  ]

  pub slice_stable-perm : (xs : List A) → Perm (slice_stable xs) xs
  unfolding slice_stable
  slice_stable-perm [] = Perm.refl []
  slice_stable-perm (x ∷ xs) =
      Perm.trans (insert_stable-perm x (slice_stable xs)) (Perm.cons x (slice_stable-perm xs))

module _ {ℓ κ} {A : Type ℓ} (less : A → A → Bool) (P : A → Type κ) where
  insert_stable-All : (x : A) (ys : List A) → P x → All P ys → All P (insert_stable less x ys)
  unfolding insert_stable
  insert_stable-All x [] p _ = (p, tt)
  insert_stable-All x (y ∷ ys) p (q, qs) = elim (Bool-cases (less y x)) [
    | inl e ↦ rw e (q, insert_stable-All x ys p qs)
    | inr e ↦ rw e (p, (q, qs))
  ]

  pub slice_stable-All : (xs : List A) → All P xs → All P (slice_stable less xs)
  unfolding slice_stable
  slice_stable-All [] _ = tt
  slice_stable-All (x ∷ xs) (p, ps) = insert_stable-All x _ p (slice_stable-All xs ps)

module _ {ℓ κ} {A : Type ℓ} (R : A → A → Type κ) where
  -- Each element stands in the relation to all that follow.
  abbrev pub Ordered : List A → Type κ
  Ordered [] = Unit
  Ordered (x ∷ xs) = All (R x) xs × Ordered xs

module _ {ℓ κ} {A : Type ℓ} (less : A → A → Bool) (R : A → A → Type κ)
    (R-trans : (a b c : A) → R a b → R b c → R a c) (before : (a b : A) → less a b ≡ true → R a b)
    (behind : (a b : A) → less a b ≡ false → R b a) where
  All-insert_stable :
      (z x : A) (ys : List A) → R z x → All (R z) ys → All (R z) (insert_stable less x ys)
  unfolding insert_stable
  All-insert_stable z x [] h hs = (h, tt)
  All-insert_stable z x (y ∷ ys) h (k, ks) = elim (Bool-cases (less y x)) [
    | inl e ↦ rw e (k, All-insert_stable z x ys h ks)
    | inr e ↦ rw e (h, (k, ks))
  ]

  All-trans : (x y : A) (ys : List A) → R x y → All (R y) ys → All (R x) ys
  All-trans x y [] h hs = tt
  All-trans x y (z ∷ zs) h (k, ks) = (R-trans x y z h k, All-trans x y zs h ks)

  insert_stable-Ordered : (x : A) (ys : List A) → Ordered R ys → Ordered R (insert_stable less x ys)
  unfolding insert_stable
  insert_stable-Ordered x [] o = (tt, tt)
  insert_stable-Ordered x (y ∷ ys) (h, o) = elim (Bool-cases (less y x)) [
    | inl e ↦ rw e (All-insert_stable y x ys (before y x e) h, insert_stable-Ordered x ys o)
    | inr e ↦ let low = behind y x e in rw e ((low, All-trans x y ys low h), (h, o))
  ]

  -- A stable sort puts a list in the order of every transitive relation that the comparison respects.
  pub slice_stable-Ordered : (xs : List A) → Ordered R (slice_stable less xs)
  unfolding slice_stable
  slice_stable-Ordered [] = tt
  slice_stable-Ordered (x ∷ xs) =
      insert_stable-Ordered x (slice_stable less xs) (slice_stable-Ordered xs)
