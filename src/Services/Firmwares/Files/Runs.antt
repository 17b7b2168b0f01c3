-- ===== src/Services/Firmwares/Files/Runs.antt =====
-- Uploads, changes and deletions one after the other.
use Prim.Native.Nat.{◌*◌}
use pvpentech_core.Common.{
  ℕ, ltb, ◌==◌, ◌≡◌, ◌⊎◌, inl, inr, refl, ◌∙◌, String, false, List, [], Option, none, some, arith,
  any, change, lookup, insert, lookup-insert, str_eq_refl, Bool-cases, Option-cases,
}
use pvpentech_core.Database.Rows.{Firmware}
use pvpentech_core.Database.Client.{IsClient, Finds}
use pvpentech_core.Database.Monad.{Db, Context}
use pvpentech_core.Services.{
  Failure, not_found, conflict, database, Outcome, done, refused, state_after,
}
use pvpentech_core.Services.Firmwares.{
  Files, Storage, Upload, UpdateFirmware, changed, has_id, has_sha256, uses_firmware, find_by_id,
  update, stored_name, uploaded, unlink_quietly, save_row, save_file, save_new, upload, delete_row,
  delete,
}
use pvpentech_core.Services.Firmwares.Files.{
  IsStorage, has_name, distinct_names, HasFile, IsKept, written_files, removed_files, All-add,
  distinct-add, rest_of, distinct-rest_of, All-rest_of, name-rest_of, distinct-change, All-change,
}

module _ (c : Context) (l : IsClient c.client) (x : Storage) (disk : IsStorage x) where
  -- The file of no row goes, or stays.
  unlink_quietly-IsKept :
      (name : String) (rows : List Firmware) (files : Files)
      → any (has_name name) rows ≡ false
      → IsKept x rows files
      → IsKept x rows (unlink_quietly c x name files)
  unfolding unlink_quietly
  unlink_quietly-IsKept name rows files fresh h = elim (Option-cases (x.unlink name files)) [
    | inl e ↦ rw (e, unlink_quietly) h
    | inr (t, e) ↦
        rw (e, unlink_quietly, disk.unlink_lem name files t e)
          (record {
            stored = removed_files x rows files name fresh h.stored;
            distinct = h.distinct;
          })
  ]

  abbrev Ends : Outcome Firmware × Files → Type 0
  Ends end = IsKept x (state_after end.0).firmwares end.1

  save_row-IsKept :
      (p : Upload) (files : Files) (s : Db)
      → any (has_name (stored_name c x p)) s.firmwares ≡ false
      → lookup (stored_name c x p) files ≡ some p.buffer
      → IsKept x s.firmwares files
      → Ends (save_row c x p files s)
  unfolding save_row
  save_row-IsKept p files s fresh there h =
      elim (Option-cases (c.client.create (λ r. r.id) (uploaded c x p) s.firmwares)) [
        | inl e ↦
            rw (e, save_row) (unlink_quietly-IsKept (stored_name c x p) s.firmwares files fresh h)
        | inr ((r, t), e) ↦
            let (id, made, grown) = l.create_lem (λ r. r.id) (uploaded c x p) s.firmwares t r e in
            let own : HasFile x files (uploaded c x p id) = (p.buffer, there, refl, refl) in
            rw (e, save_row, grown, made)
              (record {
                stored = All-add x (uploaded c x p id) files s.firmwares h.stored own;
                distinct = distinct-add x (uploaded c x p id) files s.firmwares fresh h.distinct;
              })
      ]

  save_file-IsKept :
      (p : Upload) (files : Files) (s : Db)
      → any (has_name (stored_name c x p)) s.firmwares ≡ false
      → IsKept x s.firmwares files
      → Ends (save_file c x p files s)
  unfolding save_file
  save_file-IsKept p files s fresh h =
      let name = stored_name c x p in
      elim (Option-cases (x.write name p.buffer files)) [
        | inl e ↦ rw (e, save_file) h
        | inr (t, e) ↦
            let at : lookup name (insert name p.buffer files) ≡ some p.buffer =
              rw (lookup-insert name name p.buffer files, str_eq_refl name) refl in
            rw (e, save_file, disk.write_lem name p.buffer files t e)
              (save_row-IsKept p (insert name p.buffer files) s fresh at (record {
                stored = written_files x s.firmwares files name p.buffer fresh h.stored;
                distinct = h.distinct;
              }))
      ]

  save_new-IsKept :
      (p : Upload) (found : Option (Option Firmware)) (files : Files) (s : Db)
      → any (has_name (stored_name c x p)) s.firmwares ≡ false
      → IsKept x s.firmwares files
      → Ends (save_new c x p found files s)
  unfolding save_new
  save_new-IsKept p none files s fresh h = h
  save_new-IsKept p (some (some r)) files s fresh h = h
  save_new-IsKept p (some none) files s fresh h = save_file-IsKept p files s fresh h

  upload-IsKept :
      (p : Upload) (files : Files) (s : Db)
      → any (has_name (stored_name c x p)) s.firmwares ≡ false
      → IsKept x s.firmwares files
      → Ends (upload c x p files s)
  unfolding upload
  upload-IsKept p files s fresh h =
      let found = c.client.find_first (has_sha256 (x.sha256 p.buffer)) s.firmwares in
      elim (Bool-cases (p.buffer.length == 0)) [
        | inl e ↦ rw (e, upload) h
        | inr e ↦ elim (Bool-cases (ltb (x.max_size_mb * 1024 * 1024) p.buffer.length)) [
          | inl k ↦ rw (e, k, upload) h
          | inr k ↦ rw (e, k, upload) (save_new-IsKept p found files s fresh h)
        ]
      ]

  -- The row that is deleted is one of its id, and the files are as they were.
  delete_row-cases :
      (id : ℕ) (s : Db)
      → ((e : Failure) × (delete_row c x id s ≡ refused e s))
        ⊎ ((fw : Firmware) × (t : Db) × (delete_row c x id s ≡ done fw t)
            × Finds (has_id id) fw s.firmwares
            × (t.firmwares ≡ rest_of x id s.firmwares))
  unfolding delete_row find_by_id
  delete_row-cases id s = elim (Option-cases (c.client.find_first (has_id id) s.firmwares)) [
    | inl e ↦ inl (database, ground arith)
    | inr (none, e) ↦ inl (not_found "firmware:notFound", ground arith)
    | inr (some fw, e) ↦ elim (Option-cases (c.client.count (uses_firmware id) s.campaigns)) [
      | inl k ↦ inl (database, ground arith)
      | inr (n, k) ↦ elim (Bool-cases (ltb 0 n)) [
        | inl m ↦ inl (conflict "firmware:hasCampaigns", ground arith)
        | inr m ↦ elim (Option-cases (c.client.delete (has_id id) s.firmwares)) [
          | inl q ↦ inl (database, ground arith)
          | inr (t, q) ↦ inr (
            fw,
            record s { firmwares = t },
            ground arith,
            l.find_first-some (has_id id) s.firmwares fw e,
            l.delete_lem (has_id id) s.firmwares t q,
          )
        ]
      ]
    ]
  ]

  delete-IsKept :
      (id : ℕ) (files : Files) (s : Db) → IsKept x s.firmwares files → Ends (delete c x id files s)
  unfolding delete
  delete-IsKept id files s h = elim (delete_row-cases id s) [
    | inl (f, e) ↦ rw (e, delete) h
    | inr (fw, t, e, hit, left) ↦
        let fresh = name-rest_of x id fw s.firmwares h.distinct hit in
        rw (e, delete, left)
          (unlink_quietly-IsKept fw.filename (rest_of x id s.firmwares) files fresh (record {
            stored = All-rest_of x files id s.firmwares h.stored;
            distinct = distinct-rest_of x id s.firmwares h.distinct;
          }))
  ]

  update-cases :
      (id : ℕ) (d : UpdateFirmware) (s : Db)
      → ((e : Failure) × (update c id d s ≡ refused e s))
        ⊎ ((r : Firmware) × (t : Db) × (update c id d s ≡ done r t)
            × (t.firmwares ≡ change (has_id id) (changed d) s.firmwares))
  unfolding update find_by_id
  update-cases id d s = elim (Option-cases (c.client.find_first (has_id id) s.firmwares)) [
    | inl e ↦ inl (database, ground arith)
    | inr (none, e) ↦ inl (not_found "firmware:notFound", ground arith)
    | inr (some fw, e) ↦ elim (Option-cases (c.client.update (has_id id) (changed d) s.firmwares)) [
      | inl k ↦ inl (database, ground arith)
      | inr ((r, t), k) ↦
          let (old, hit, became, shape) = l.update_lem (has_id id) (changed d) s.firmwares t r k in
          inr (r, record s { firmwares = t }, ground arith, shape)
    ]
  ]

  update-IsKept :
      (id : ℕ) (d : UpdateFirmware) (files : Files) (s : Db)
      → IsKept x s.firmwares files
      → IsKept x (state_after (update c id d s)).firmwares files
  update-IsKept id d files s h = elim (update-cases id d s) [
    | inl (f, e) ↦ rw e h
    | inr (r, t, e, shape) ↦
        rw (e, shape)
          (record {
            stored = All-change x id d files s.firmwares h.stored;
            distinct = distinct-change x id d s.firmwares ∙ h.distinct;
          })
  ]

  -- An upload under a name that no row has, a change, or a deletion, whatever it ends with.
  pub data Step : Db → Files → Db → Files → Type 0 where
    uploads :
        (p : Upload) (files : Files) (s : Db)
        → any (has_name (stored_name c x p)) s.firmwares ≡ false
        → Step s files (state_after (upload c x p files s).0) (upload c x p files s).1
    updates :
        (id : ℕ) (d : UpdateFirmware) (files : Files) (s : Db)
        → Step s files (state_after (update c id d s)) files
    deletes :
        (id : ℕ) (files : Files) (s : Db)
        → Step s files (state_after (delete c x id files s).0) (delete c x id files s).1

  pub data Reach : Db → Files → Type 0 where
    start : (s : Db) → s.firmwares ≡ [] → Reach s []
    later :
        {s t : Db} {files files' : Files} → Reach s files → Step s files t files' → Reach t files'

  Step-IsKept :
      {s : Db} {files files' : Files} {t : Db}
      → Step s files t files'
      → IsKept x s.firmwares files
      → IsKept x t.firmwares files'
  Step-IsKept (uploads p files s fresh) h = upload-IsKept p files s fresh h
  Step-IsKept (updates id d files s) h = update-IsKept id d files s h
  Step-IsKept (deletes id files s) h = delete-IsKept id files s h

  -- After any uploads under new names, changes and deletions of firmware images, whichever calls of
  -- the client and of the file system fail, each image that has a row has its file, with the digest
  -- and the size that the row says, and no two rows have the same file.
  pub Reach-IsKept : {s : Db} {files : Files} → Reach s files → IsKept x s.firmwares files
  unfolding distinct_names
  Reach-IsKept (start s e) = rw e (record { stored = tt; distinct = refl })
  Reach-IsKept (later r step) = Step-IsKept step (Reach-IsKept r)
