-- ===== src/Database/Client/Tables.antt =====
-- Rows that are found in a table after it was changed or grew.
use pvpentech_core.Common.{
  ◌≡◌, inl, inr, refl, sym, ap, ◌&&◌, Bool, true, false, List, [], ◌∷◌, ◌++◌, arith, All, any, keep,
  change, Bool-cases,
}
use mathlib.Core.List.{append_assoc}
use pvpentech_core.Database.Client.{Finds}

module _ {Row : Type 0} where
  pub Finds-test : (p : Row → Bool) (r : Row) (t : List Row) → Finds p r t → p r ≡ true
  Finds-test p r [] h = elim h [ ]
  Finds-test p r (x ∷ xs) (inl h) = h.1
  Finds-test p r (x ∷ xs) (inr h) = Finds-test p r xs h

  -- A row found by one test is found by any other test that it passes.
  pub Finds-weaken :
      (p q : Row → Bool) (r : Row) (t : List Row) → Finds p r t → q r ≡ true → Finds q r t
  Finds-weaken p q r [] h e = elim h [ ]
  Finds-weaken p q r (x ∷ xs) (inl h) e = inl (h.0, e)
  Finds-weaken p q r (x ∷ xs) (inr h) e = inr (Finds-weaken p q r xs h e)

  -- A row that is found and changed is found as it has become.
  pub Finds-change :
      (p q : Row → Bool) (f : Row → Row) (r : Row) (t : List Row)
      → Finds p r t
      → q (f r) ≡ true
      → Finds q (f r) (change p f t)
  Finds-change p q f r [] h e = elim h [ ]
  Finds-change p q f r (x ∷ xs) (inl h) e = inl (rw h.0 (rw h.1 refl), e)
  Finds-change p q f r (x ∷ xs) (inr h) e = inr (Finds-change p q f r xs h e)

  pub Finds-last : (p : Row → Bool) (r : Row) (t : List Row) → p r ≡ true → Finds p r (t ++ r ∷ [])
  Finds-last p r [] e = inl (refl, e)
  Finds-last p r (x ∷ xs) e = inr (Finds-last p r xs e)

  pub any_of_Finds : (p : Row → Bool) (r : Row) (t : List Row) → Finds p r t → any p t ≡ true
  any_of_Finds p r [] h = elim h [ ]
  any_of_Finds p r (x ∷ xs) (inl h) = rw (h.0, h.1) refl
  any_of_Finds p r (x ∷ xs) (inr h) = ground (arith, any_of_Finds p r xs h)

  -- What is found in a table that no row of before passes is the row that was added.
  pub Finds-new :
      (p : Row → Bool) (old r : Row) (t : List Row)
      → any p t ≡ false
      → Finds p old (t ++ r ∷ [])
      → old ≡ r
  Finds-new p old r [] e (inl h) = sym h.0
  Finds-new p old r [] e (inr h) = elim h [ ]
  Finds-new p old r (x ∷ xs) e (inl h) = absurd (cc (ap p h.0))
  Finds-new p old r (x ∷ xs) e (inr h) = Finds-new p old r xs (ground arith) h

  -- Where each row that passes `q` is changed into one that does not, none is left.
  pub any-change_none :
      (p q : Row → Bool) (f : Row → Row) (t : List Row)
      → All (λ r. q r ≡ true → p r ≡ true) t
      → ((r : Row) → q (f r) ≡ false)
      → any q (change p f t) ≡ false
  any-change_none p q f [] all gone = refl
  any-change_none p q f (x ∷ xs) (here, all) gone = elim (Bool-cases (p x)) [
    | inl e ↦ ground (arith, gone x, any-change_none p q f xs all gone)
    | inr e ↦ elim (Bool-cases (q x)) [
      | inl k ↦ absurd (cc (here k))
      | inr k ↦ ground (arith, any-change_none p q f xs all gone)
    ]
  ]

  pub All-every : (P : Row → Type 0) (t : List Row) → ((r : Row) → P r) → All P t
  All-every P [] h = tt
  All-every P (x ∷ xs) h = (h x, All-every P xs h)

  any_middle :
      (p : Row → Bool) (before : List Row) (x : Row) (after : List Row)
      → p x ≡ true
      → any p (before ++ x ∷ after) ≡ true
  any_middle p [] x after e = rw e
  any_middle p (y ∷ ys) x after e = ground (arith, any_middle p ys x after e)

  any_self_after :
      (g : Row → Bool) (f : Row → Row → Bool) (before t : List Row)
      → ((x : Row) → g x ≡ true → f x x ≡ true)
      → All (λ x. g x ≡ true → any (f x) (before ++ t) ≡ true) t
  any_self_after g f before [] h = tt
  any_self_after g f before (x ∷ xs) h = (
    λ e. any_middle (f x) before x xs (h x e),
    rw (append_assoc before (x ∷ []) xs) at (any_self_after g f (before ++ x ∷ []) xs h),
  )

  -- Each row of a table that passes `g` is one of the table's rows that `f` relates it to.
  pub any_self :
      (g : Row → Bool) (f : Row → Row → Bool) (t : List Row)
      → ((x : Row) → g x ≡ true → f x x ≡ true)
      → All (λ x. g x ≡ true → any (f x) t ≡ true) t
  any_self g f t h = any_self_after g f [] t h

  -- The rows that pass `q` stay as they are where the change spares them and makes none.
  pub keep-change :
      (p q : Row → Bool) (f : Row → Row) (t : List Row)
      → ((r : Row) → p r ≡ true → q r ≡ false)
      → ((r : Row) → p r ≡ true → q (f r) ≡ false)
      → keep q (change p f t) ≡ keep q t
  keep-change p q f [] spares gone = refl
  keep-change p q f (x ∷ xs) spares gone = elim (Bool-cases (p x)) [
    | inl e ↦ ground (arith, spares x e, gone x e, keep-change p q f xs spares gone)
    | inr e ↦ ground (arith, keep-change p q f xs spares gone)
  ]

  pub All-map : (P Q : Row → Type 0) (t : List Row) → ((r : Row) → P r → Q r) → All P t → All Q t
  All-map P Q [] f h = tt
  All-map P Q (x ∷ xs) f (p, h) = (f x p, All-map P Q xs f h)

  pub any-and_self : (p : Row → Bool) (t : List Row) → any (λ r. p r && p r) t ≡ any p t
  any-and_self p [] = refl
  any-and_self p (x ∷ xs) = ground (arith, any-and_self p xs)
