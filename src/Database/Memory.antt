-- ===== src/Database/Memory.antt =====
-- A client over lists in memory, on which the examples run.
use pvpentech_core.Common.{
  ℕ, suc, ◌≡◌, ◌≢◌, Option-cases, ◌≤◌, inl, inr, refl, ap, subst, ◌∙◌, Bool, true, false, List, [],
  ◌∷◌, ◌++◌, Option, none, some, arith, ◌==◌, find?, keep, ◌&&◌, any, change, max, if◌then◌else◌,
  Bool-cases, ltb, length, not, ◌⊎◌, All,
}
use pvpentech_core.Database.Client.{Client, IsClient, IsWorking, Finds, Builds, built_none, built}
use pvpentech_core.Database.Client.Tables.{any_of_Finds}

module _ {Row : Type 0} where
  abbrev pub next_id : (Row → ℕ) → List Row → ℕ
  next_id key [] = 1
  next_id key (x ∷ xs) = max (suc (key x)) (next_id key xs)

  abbrev pub with_row : (Row → Bool) → (Row → Row) → List Row → Option Row → Option (Row × List Row)
  with_row p f t none = none
  with_row p f t (some r) = some (f r, change p f t)

  abbrev pub update_row : (Row → Bool) → (Row → Row) → List Row → Option (Row × List Row)
  update_row p f t = with_row p f t (find? p t)

  find?-Finds : (p : Row → Bool) (t : List Row) (r : Row) → find? p t ≡ some r → Finds p r t
  find?-Finds p [] r h = absurd (cc)
  find?-Finds p (x ∷ xs) r h = elim (Bool-cases (p x)) [
    | inl e ↦ inl (ground arith, ground arith)
    | inr e ↦ inr (find?-Finds p xs r (ground arith))
  ]

  find?-none : (p : Row → Bool) (t : List Row) → find? p t ≡ none → any p t ≡ false
  find?-none p [] h = refl
  find?-none p (x ∷ xs) h = ground (arith, find?-none p xs)

  any-keep : (p q : Row → Bool) (t : List Row) → any q (keep p t) ≡ any (λ r. p r && q r) t
  any-keep p q [] = refl
  any-keep p q (x ∷ xs) = ground (arith, any-keep p q xs)

  find_many_keep :
      (p q : Row → Bool) (t rows : List Row)
      → keep p t ≡ rows
      → any q rows ≡ any (λ r. p r && q r) t
  find_many_keep p q t rows e = rw (← e) (any-keep p q t)

  All-inr :
      (p : Row → Bool) (x : Row) (t rows : List Row)
      → All (λ r. Finds p r t) rows
      → All (λ r. Finds p r (x ∷ t)) rows
  All-inr p x t [] h = tt
  All-inr p x t (r ∷ rows) (here, rest) = (inr here, All-inr p x t rows rest)

  pub keep-Finds : (p : Row → Bool) (t : List Row) → All (λ r. Finds p r t) (keep p t)
  keep-Finds p [] = tt
  keep-Finds p (x ∷ xs) =
      let rest = All-inr p x xs (keep p xs) (keep-Finds p xs) in
      elim (Bool-cases (p x)) [ inl e ↦ rw e (inl (refl, e), rest) | inr e ↦ rw e rest ]

  pub keep_empty : (p : Row → Bool) (t : List Row) → keep p t ≡ [] → any p t ≡ false
  keep_empty p [] h = refl
  keep_empty p (x ∷ xs) h = ground (arith, keep_empty p xs)

  next_id-fresh :
      (key : Row → ℕ) (xs : List Row) (n : ℕ)
      → next_id key xs ≤ n
      → any (λ x. key x == n) xs ≡ false
  next_id-fresh key [] n h = refl
  next_id-fresh key (x ∷ xs) n h = ground (arith, next_id-fresh key xs n)

  update_row_lem :
      (p : Row → Bool) (f : Row → Row) (t t' : List Row) (r : Row)
      → update_row p f t ≡ some (r, t')
      → (old : Row) × Finds p old t × (r ≡ f old) × (t' ≡ change p f t)
  update_row_lem p f t t' r h = go (find? p t) refl h
    where
      go :
          (o : Option Row)
          → find? p t ≡ o
          → with_row p f t o ≡ some (r, t')
          → (old : Row) × Finds p old t × (r ≡ f old) × (t' ≡ change p f t)
      go none e k = absurd (cc)
      go (some x) e k = (x, find?-Finds p t x e, ground arith, ground arith)

module _ {Row : Type 0} (p : Row → Bool) (f : Row → Row) (new : Row) (t : List Row) where
  abbrev pub upsert_in : Option Row → Option (Row × List Row)
  upsert_in none = some (new, t ++ new ∷ [])
  upsert_in (some r) = some (f r, change p f t)

  upsert_in_lem :
      (t' : List Row) (r : Row)
      → upsert_in (find? p t) ≡ some (r, t')
      → (t' ≡ (if any p t then change p f t else t ++ new ∷ []))
        × ((r ≡ new) ⊎ ((old : Row) × Finds p old t × (r ≡ f old)))
  upsert_in_lem t' r h = elim (Option-cases (find? p t)) [
    | inl e ↦ (ground (arith, find?-none p t e), inl (ground arith))
    | inr (q, e) ↦
        let hit = find?-Finds p t q e in
        (ground (arith, any_of_Finds p q t hit), inr (q, hit, ground arith))
  ]

module _ {Row : Type 0} (p : Row → Bool) (key : Row → ℕ) where
  abbrev later : Row → Option Row → Option Row
  later x none = if p x then some x else none
  later x (some r) = if p x && ltb (key r) (key x) then some x else some r

  abbrev pub latest : List Row → Option Row
  latest [] = none
  latest (x ∷ xs) = later x (latest xs)

  not_later :
      (k m : ℕ) (xs : List Row)
      → k ≤ m
      → any (λ x. p x && ltb k (key x)) xs ≡ false
      → any (λ x. p x && ltb m (key x)) xs ≡ false
  not_later k m [] le h = refl
  not_later k m (x ∷ xs) le h = ground (arith, not_later k m xs)

  none_later :
      (m : ℕ) (xs : List Row) → any p xs ≡ false → any (λ x. p x && ltb m (key x)) xs ≡ false
  none_later m [] h = refl
  none_later m (x ∷ xs) h = ground (arith, none_later m xs)

  latest-none : (t : List Row) → latest t ≡ none → any p t ≡ false
  latest-none [] h = refl
  latest-none (x ∷ xs) h = elim (Option-cases (latest xs)) [
    | inl e ↦ ground (arith, latest-none xs e)
    | inr (r, e) ↦ absurd (ground (arith))
  ]

  abbrev IsTop : List Row → Row → Type 0
  IsTop t r = Finds p r t × (any (λ x. p x && ltb (key r) (key x)) t ≡ false)

  latest-some : (t : List Row) (r : Row) → latest t ≡ some r → IsTop t r
  latest-some [] r h = absurd (cc)
  latest-some (x ∷ xs) r h = elim (Option-cases (latest xs)) [
    | inl e ↦
        let pass : p x ≡ true = ground arith in
        let low = none_later (key x) xs (latest-none xs e) in
        subst (IsTop (x ∷ xs)) (ground arith) (inl (refl, pass), ground (arith, low))
    | inr (q, e) ↦
        let (hit, top) = latest-some xs q e in
        elim (Bool-cases (p x && ltb (key q) (key x))) [
          | inl k ↦
              let low = not_later (key q) (key x) xs (ground arith) top in
              subst (IsTop (x ∷ xs)) (ground arith) (inl (refl, ground arith), ground (arith, low))
          | inr k ↦ subst (IsTop (x ∷ xs)) (ground arith) (inr hit, ground arith)
        ]
  ]

-- The rows with the ids from `n` on.
abbrev pub built_from : {Row : Type 0} → ℕ → List (ℕ → Row) → List Row
built_from n [] = []
built_from n (build ∷ builds) = build n ∷ built_from (suc n) builds

built_from-Builds :
    {Row : Type 0} (n : ℕ) (builds : List (ℕ → Row)) → Builds builds (built_from n builds)
built_from-Builds n [] = built_none
built_from-Builds n (build ∷ builds) =
    built build n builds (built_from (suc n) builds) (built_from-Builds (suc n) builds)

abbrev pub memory : Client
memory = record {
  find_first = λ p t. some (find? p t);
  find_many = λ p t. some (keep p t);
  find_latest = λ p key t. some (latest p key t);
  count = λ p t. some (length (keep p t));
  create = λ key build t. some (build (next_id key t), t ++ build (next_id key t) ∷ []);
  update = λ p f t. update_row p f t;
  update_many = λ p f t. some (change p f t);
  upsert = λ p f new t. some (if any p t then change p f t else t ++ new ∷ []);
  upsert_row = λ p f new t. upsert_in p f new t (find? p t);
  delete = λ p t. if any p t then some (keep (λ r. not (p r)) t) else none;
  delete_many = λ p t. some (keep (λ r. not (p r)) t);
  create_many = λ new t. some (t ++ new);
  create_rows = λ key builds t. some (t ++ built_from (next_id key t) builds);
}

pub memory-IsClient : IsClient memory
memory-IsClient = record {
  find_first-some = λ p t r h. find?-Finds p t r (ground arith);
  find_first-none = λ p t h. find?-none p t (ground arith);
  find_latest-some = λ p key t r h. latest-some p key t r (ground arith);
  find_latest-none = λ p key t h. latest-none p key t (ground arith);
  count_lem = λ p t n h. ground arith;
  find_many_lem = λ p q t rows h. find_many_keep p q t rows (ground arith);
  find_many-Finds = λ p t rows h.
      let e : keep p t ≡ rows = ground arith in subst (All (λ r. Finds p r t)) e (keep-Finds p t);
  create_lem = λ key build t t' r h. (next_id key t, ground arith, ground arith);
  create-fresh = λ key build t t' r k h.
      let made : r ≡ build (next_id key t) = ground arith in
      let e : key r ≡ next_id key t = ap key made ∙ k (next_id key t) in
      next_id-fresh key t (key r) (omega (arith, e));
  update_lem = λ p f t t' r h. update_row_lem p f t t' r h;
  update_many_lem = λ p f t t' h. ground arith;
  upsert_lem = λ p f new t t' h. ground arith;
  upsert_row_lem = λ p f new t t' r h. upsert_in_lem p f new t t' r h;
  delete_lem = λ p t t' h. ground arith;
  delete_many_lem = λ p t t' h. ground arith;
  create_many_lem = λ new t t' h. ground arith;
  create_rows_lem = λ key builds t t' h.
      (built_from (next_id key t) builds, built_from-Builds (next_id key t) builds, ground arith);
}

update_row-works :
    {Row : Type 0} (p : Row → Bool) (f : Row → Row) (t : List Row)
    → any p t ≡ true
    → update_row p f t ≢ none
update_row-works p f t h = elim (Option-cases (find? p t)) [
  | inl e ↦ absurd (cc (find?-none p t e))
  | inr (r, e) ↦ rw e (λ k. cc)
]

pub memory-IsWorking : IsWorking memory
memory-IsWorking = record {
  finds = λ p t h. cc;
  finds_many = λ p t h. cc;
  updates = λ p f t h. update_row-works p f t h;
  updates_many = λ p f t h. cc;
  counts = λ p t h. cc;
  deletes = λ p t there. rw there (λ h. cc);
  deletes_many = λ p t h. cc;
}
