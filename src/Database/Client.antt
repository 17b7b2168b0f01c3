-- ===== src/Database/Client.antt =====
-- The Prisma client, which is not in the repository: a parameter, with the documented behaviour
-- that the code relies on as laws. A table is the list of its rows.
pub mod Tables
use pvpentech_core.Common.{
  ℕ, ◌≡◌, ◌≢◌, String, Bool, true, false, ◌&&◌, List, [], ◌∷◌, ◌++◌, Option, none, some, All, any,
  change, if◌then◌else◌, refl, ◌⊎◌, inl, inr, arith, find?, ◌==◌, ltb, length, keep, not,
}

-- A row that passes the test stands in the list.
abbrev pub Finds : {Row : Type 0} → (Row → Bool) → Row → List Row → Type 0
Finds p r [] = ⊥
Finds p r (x ∷ xs) = ((x ≡ r) × (p r ≡ true)) ⊎ Finds p r xs

-- Rows that were built from ids that the table assigned.
pub data Builds {Row : Type 0} : List (ℕ → Row) → List Row → Type 0 where
  built_none : Builds [] []
  built :
      (build : ℕ → Row) (n : ℕ) (builds : List (ℕ → Row)) (rows : List Row)
      → Builds builds rows
      → Builds (build ∷ builds) (build n ∷ rows)

-- A call answers `none` when its promise is rejected: the server is away, a constraint fails, or
-- `update` finds no row. `create` builds the row from the id that the
-- table assigns; its first argument is the id column.
pub record Client : Type 1 where
  pub find_first : {Row : Type 0} → (Row → Bool) → List Row → Option (Option Row)
  pub find_many : {Row : Type 0} → (Row → Bool) → List Row → Option (List Row)
  -- `findFirst` with `orderBy: { key: 'desc' }`
  pub find_latest : {Row : Type 0} → (Row → Bool) → (Row → ℕ) → List Row → Option (Option Row)
  pub count : {Row : Type 0} → (Row → Bool) → List Row → Option ℕ
  pub create : {Row : Type 0} → (Row → ℕ) → (ℕ → Row) → List Row → Option (Row × List Row)
  pub update : {Row : Type 0} → (Row → Bool) → (Row → Row) → List Row → Option (Row × List Row)
  pub update_many : {Row : Type 0} → (Row → Bool) → (Row → Row) → List Row → Option (List Row)
  pub upsert : {Row : Type 0} → (Row → Bool) → (Row → Row) → Row → List Row → Option (List Row)
  -- `upsert`, where the row that it answers with is used.
  pub upsert_row :
      {Row : Type 0} → (Row → Bool) → (Row → Row) → Row → List Row → Option (Row × List Row)
  pub delete : {Row : Type 0} → (Row → Bool) → List Row → Option (List Row)
  pub delete_many : {Row : Type 0} → (Row → Bool) → List Row → Option (List Row)
  pub create_many : {Row : Type 0} → List Row → List Row → Option (List Row)
  -- `createMany` of rows whose ids the table assigns.
  pub create_rows : {Row : Type 0} → (Row → ℕ) → List (ℕ → Row) → List Row → Option (List Row)

-- What the code relies on of the client. A call that succeeds does what it is documented to do.
pub record IsClient (c : Client) : Type 1 where
  pub find_first-some :
      {Row : Type 0} (p : Row → Bool) (t : List Row) (r : Row)
      → c.find_first p t ≡ some (some r)
      → Finds p r t
  pub find_first-none :
      {Row : Type 0} (p : Row → Bool) (t : List Row)
      → c.find_first p t ≡ some none
      → any p t ≡ false
  -- No other row that passes is later.
  pub find_latest-some :
      {Row : Type 0} (p : Row → Bool) (key : Row → ℕ) (t : List Row) (r : Row)
      → c.find_latest p key t ≡ some (some r)
      → Finds p r t × (any (λ x. p x && ltb (key r) (key x)) t ≡ false)
  pub find_latest-none :
      {Row : Type 0} (p : Row → Bool) (key : Row → ℕ) (t : List Row)
      → c.find_latest p key t ≡ some none
      → any p t ≡ false
  pub count_lem :
      {Row : Type 0} (p : Row → Bool) (t : List Row) (n : ℕ)
      → c.count p t ≡ some n
      → n ≡ length (keep p t)
  -- The rows that pass, in some order.
  pub find_many_lem :
      {Row : Type 0} (p q : Row → Bool) (t rows : List Row)
      → c.find_many p t ≡ some rows
      → any q rows ≡ any (λ r. p r && q r) t
  pub find_many-Finds :
      {Row : Type 0} (p : Row → Bool) (t rows : List Row)
      → c.find_many p t ≡ some rows
      → All (λ r. Finds p r t) rows
  pub create_lem :
      {Row : Type 0} (key : Row → ℕ) (build : ℕ → Row) (t t' : List Row) (r : Row)
      → c.create key build t ≡ some (r, t')
      → (n : ℕ) × (r ≡ build n) × (t' ≡ t ++ r ∷ [])
  -- The id that the table assigns is no other row's.
  pub create-fresh :
      {Row : Type 0} (key : Row → ℕ) (build : ℕ → Row) (t t' : List Row) (r : Row)
      → ((n : ℕ) → key (build n) ≡ n)
      → c.create key build t ≡ some (r, t')
      → any (λ x. key x == key r) t ≡ false
  pub update_lem :
      {Row : Type 0} (p : Row → Bool) (f : Row → Row) (t t' : List Row) (r : Row)
      → c.update p f t ≡ some (r, t')
      → (old : Row) × Finds p old t × (r ≡ f old) × (t' ≡ change p f t)
  pub update_many_lem :
      {Row : Type 0} (p : Row → Bool) (f : Row → Row) (t t' : List Row)
      → c.update_many p f t ≡ some t'
      → t' ≡ change p f t
  pub upsert_lem :
      {Row : Type 0} (p : Row → Bool) (f : Row → Row) (new : Row) (t t' : List Row)
      → c.upsert p f new t ≡ some t'
      → t' ≡ (if any p t then change p f t else t ++ new ∷ [])
  pub upsert_row_lem :
      {Row : Type 0} (p : Row → Bool) (f : Row → Row) (new : Row) (t t' : List Row) (r : Row)
      → c.upsert_row p f new t ≡ some (r, t')
      → (t' ≡ (if any p t then change p f t else t ++ new ∷ []))
        × ((r ≡ new) ⊎ ((old : Row) × Finds p old t × (r ≡ f old)))
  pub delete_lem :
      {Row : Type 0} (p : Row → Bool) (t t' : List Row)
      → c.delete p t ≡ some t'
      → t' ≡ keep (λ r. not (p r)) t
  pub delete_many_lem :
      {Row : Type 0} (p : Row → Bool) (t t' : List Row)
      → c.delete_many p t ≡ some t'
      → t' ≡ keep (λ r. not (p r)) t
  pub create_many_lem :
      {Row : Type 0} (new t t' : List Row) → c.create_many new t ≡ some t' → t' ≡ t ++ new
  pub create_rows_lem :
      {Row : Type 0} (key : Row → ℕ) (builds : List (ℕ → Row)) (t t' : List Row)
      → c.create_rows key builds t ≡ some t'
      → (new : List Row) × Builds builds new × (t' ≡ t ++ new)

-- A client whose server is there: it answers queries, and takes updates and deletions of rows that
-- are there. It is asked only of updates that write statuses, counts, dates of the clock and texts
-- that are cut, which fit their columns. Whether it takes a new row, which may break a constraint,
-- is left open.
pub record IsWorking (c : Client) : Type 1 where
  pub finds : {Row : Type 0} (p : Row → Bool) (t : List Row) → c.find_first p t ≢ none
  pub finds_many : {Row : Type 0} (p : Row → Bool) (t : List Row) → c.find_many p t ≢ none
  pub updates :
      {Row : Type 0} (p : Row → Bool) (f : Row → Row) (t : List Row)
      → any p t ≡ true
      → c.update p f t ≢ none
  pub updates_many :
      {Row : Type 0} (p : Row → Bool) (f : Row → Row) (t : List Row) → c.update_many p f t ≢ none
  pub counts : {Row : Type 0} (p : Row → Bool) (t : List Row) → c.count p t ≢ none
  pub deletes :
      {Row : Type 0} (p : Row → Bool) (t : List Row) → any p t ≡ true → c.delete p t ≢ none
  pub deletes_many : {Row : Type 0} (p : Row → Bool) (t : List Row) → c.delete_many p t ≢ none
