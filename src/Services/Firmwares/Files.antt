-- ===== src/Services/Firmwares/Files.antt =====
-- Each firmware image that has a row has its file, whatever was uploaded, changed and deleted.
pub mod Runs
use pvpentech_core.Common.{
  ℕ, ◌≡◌, ◌⊎◌, inl, inr, refl, subst, sym, ap, ◌∙◌, String, Bool, true, false, not, List, [], ◌∷◌,
  ◌++◌, Option, none, some, arith, All, any, keep, change, lookup, insert, remove, lookup-insert,
  lookup-remove, str_eq, str_eq_iff, str_eq_refl, ltb, Bool-cases, Option-cases, if◌then◌else◌,
  ◌==◌,
}
use pvpentech_core.Database.Rows.{Firmware}
use pvpentech_core.Database.Client.{IsClient, Finds}
use pvpentech_core.Database.Monad.{Db, Context}
use pvpentech_core.Services.{Outcome, done, refused, state_after}
use pvpentech_core.Services.Firmwares.{
  Buffer, Files, Storage, Upload, UpdateFirmware, changed, has_id, has_sha256, uses_firmware,
  find_by_id, update, stored_name, uploaded, unlink_quietly, save_row, save_file, save_new, upload,
  delete_row, delete,
}

-- What the code relies on of the file system: a call that succeeds writes or removes just its file.
pub record IsStorage (x : Storage) : Type 0 where
  pub write_lem :
      (name : String) (b : Buffer) (files t : Files)
      → x.write name b files ≡ some t
      → t ≡ insert name b files
  pub unlink_lem :
      (name : String) (files t : Files) → x.unlink name files ≡ some t → t ≡ remove name files

abbrev pub has_name : String → Firmware → Bool
has_name name r = str_eq r.filename name

pub distinct_names : List Firmware → Bool
distinct_names [] = true
distinct_names (r ∷ rows) =
    let rest = distinct_names rows in if any (has_name r.filename) rows then false else rest

module _ (x : Storage) where
  -- The row's file is there, and is what its digest and its size say.
  abbrev pub HasFile : Files → Firmware → Type 0
  HasFile files r =
      (b : Buffer) × (lookup r.filename files ≡ some b)
      × (x.sha256 b ≡ r.sha256)
      × (b.length ≡ r.file_size)

  pub record IsKept (rows : List Firmware) (files : Files) : Type 0 where
    pub stored : All (HasFile files) rows
    pub distinct : distinct_names rows ≡ true

  -- A file of another name does not matter.
  written_files :
      (rows : List Firmware) (files : Files) (name : String) (b : Buffer)
      → any (has_name name) rows ≡ false
      → All (HasFile files) rows
      → All (HasFile (insert name b files)) rows
  written_files [] files name b fresh h = tt
  written_files (r ∷ rows) files name b fresh ((d, found, digest, size), h) = (
    (
      d,
      ground (
        arith,
        lookup-insert name r.filename b files,
        str_eq_iff name r.filename,
        str_eq_iff r.filename name,
      ),
      digest,
      size,
    ),
    written_files rows files name b (ground arith) h,
  )

  removed_files :
      (rows : List Firmware) (files : Files) (name : String)
      → any (has_name name) rows ≡ false
      → All (HasFile files) rows
      → All (HasFile (remove name files)) rows
  removed_files [] files name fresh h = tt
  removed_files (r ∷ rows) files name fresh ((d, found, digest, size), h) = (
    (
      d,
      ground (
        arith,
        lookup-remove name r.filename files,
        str_eq_iff name r.filename,
        str_eq_iff r.filename name,
      ),
      digest,
      size,
    ),
    removed_files rows files name (ground arith) h,
  )

  module _ (r : Firmware) (files : Files) where
    All-add :
        (rows : List Firmware)
        → All (HasFile files) rows
        → HasFile files r
        → All (HasFile files) (rows ++ r ∷ [])
    All-add [] h own = (own, tt)
    All-add (q ∷ rows) (here, h) own = (here, All-add rows h own)

    any-add :
        (name : String) (rows : List Firmware)
        → any (has_name name) rows ≡ false
        → str_eq r.filename name ≡ false
        → any (has_name name) (rows ++ r ∷ []) ≡ false
    any-add name [] h other = ground arith
    any-add name (q ∷ rows) h other = ground (arith, any-add name rows)

    distinct-add :
        (rows : List Firmware)
        → any (has_name r.filename) rows ≡ false
        → distinct_names rows ≡ true
        → distinct_names (rows ++ r ∷ []) ≡ true
    unfolding distinct_names
    distinct-add [] fresh h = refl
    distinct-add (q ∷ rows) fresh h = ground (
      arith,
      distinct-add rows,
      any-add q.filename rows,
      str_eq_iff q.filename r.filename,
      str_eq_iff r.filename q.filename,
    )

  -- The rows without those of an id.
  abbrev rest_of : ℕ → List Firmware → List Firmware
  rest_of id rows = keep (λ r. not (has_id id r)) rows

  any-rest_of :
      (name : String) (id : ℕ) (rows : List Firmware)
      → any (has_name name) rows ≡ false
      → any (has_name name) (rest_of id rows) ≡ false
  any-rest_of name id [] h = refl
  any-rest_of name id (q ∷ rows) h = ground (arith, any-rest_of name id rows)

  distinct-rest_of :
      (id : ℕ) (rows : List Firmware)
      → distinct_names rows ≡ true
      → distinct_names (rest_of id rows) ≡ true
  unfolding distinct_names
  distinct-rest_of id [] h = refl
  distinct-rest_of id (q ∷ rows) h =
      ground (arith, distinct-rest_of id rows, any-rest_of q.filename id rows)

  All-rest_of :
      (files : Files) (id : ℕ) (rows : List Firmware)
      → All (HasFile files) rows
      → All (HasFile files) (rest_of id rows)
  All-rest_of files id [] h = tt
  All-rest_of files id (q ∷ rows) (here, h) = elim (Bool-cases (q.id == id)) [
    | inl e ↦ rw e (All-rest_of files id rows h)
    | inr e ↦ rw e (here, All-rest_of files id rows h)
  ]

  name_Finds :
      (p : Firmware → Bool) (fw : Firmware) (rows : List Firmware)
      → Finds p fw rows
      → any (has_name fw.filename) rows ≡ true
  name_Finds p fw [] h = elim h [ ]
  name_Finds p fw (q ∷ rows) (inl h) = rw h.0 (ground (arith, str_eq_refl fw.filename))
  name_Finds p fw (q ∷ rows) (inr h) = ground (arith, name_Finds p fw rows h)

  -- The name of a deleted image is no other's.
  name-rest_of :
      (id : ℕ) (fw : Firmware) (rows : List Firmware)
      → distinct_names rows ≡ true
      → Finds (has_id id) fw rows
      → any (has_name fw.filename) (rest_of id rows) ≡ false
  unfolding distinct_names
  name-rest_of id fw [] d h = elim h [ ]
  name-rest_of id fw (q ∷ rows) d (inl h) =
      let passes : has_id id q ≡ true = rw h.0 h.1 in
      let same : q.filename ≡ fw.filename = ap (λ r. r.filename) h.0 in
      rw (passes, ← same) (any-rest_of q.filename id rows (ground arith))
  name-rest_of id fw (q ∷ rows) d (inr h) = ground (
    arith,
    name-rest_of id fw rows (ground arith) h,
    name_Finds (has_id id) fw rows h,
    str_eq_iff q.filename fw.filename,
  )

  -- What a change leaves of the names and the files.
  module _ (id : ℕ) (d : UpdateFirmware) where
    any-change :
        (name : String) (rows : List Firmware)
        → any (has_name name) (change (has_id id) (changed d) rows) ≡ any (has_name name) rows
    any-change name [] = refl
    any-change name (q ∷ rows) = ground (arith, any-change name rows)

    distinct-change :
        (rows : List Firmware)
        → distinct_names (change (has_id id) (changed d) rows) ≡ distinct_names rows
    unfolding distinct_names
    distinct-change [] = refl
    distinct-change (q ∷ rows) = ground (arith, distinct-change rows, any-change q.filename rows)

    All-change :
        (files : Files) (rows : List Firmware)
        → All (HasFile files) rows
        → All (HasFile files) (change (has_id id) (changed d) rows)
    All-change files [] h = tt
    All-change files (q ∷ rows) (here, h) = elim (Bool-cases (q.id == id)) [
      | inl e ↦ rw e (here, All-change files rows h)
      | inr e ↦ rw e (here, All-change files rows h)
    ]
