-- ===== src/Services/Firmwares.antt =====
-- packages/core/src/services/firmware.service.ts and the repository that it calls: the firmware
-- images, which have a row in the database and a file on the disk.
pub mod Files
use Prim.Native.String.{◌++◌}
use Prim.Native.Nat.{◌*◌}
use pvpentech_core.Common.{
  ℕ, ◌+◌, ◌==◌, String, Bool, true, false, List, [], ◌∷◌, Option, none, some, str_eq, ltb, or_else,
  if◌then◌else◌,
}
use pvpentech_core.Database.Rows.{Firmware, Campaign}
use pvpentech_core.Database.Monad.{Db, Context}
use pvpentech_core.Services.{
  over, over_null, Failure, not_found, conflict, bad_request, database, file_system, Outcome, done,
  refused, Service, give, refuse, ◌>>=◌, ◌>>◌, reads, writes, answers,
}

-- The bytes of a file, as far as the service looks at them.
pub record Buffer : Type 0 where
  pub content : String
  pub length : ℕ

-- The directory `FIRMWARE_STORAGE_DIR`, by file names.
abbrev pub Files : Type 0
Files = List (String × Buffer)

-- What is not in the repository: the file system, whose calls answer `none` when they are rejected
-- (`write` makes the directory too), the SHA-256 digest in hexadecimal digits, the replacement of
-- the characters other than `A-Za-z0-9._-`, the first characters of a text, `encodeURIComponent`
-- and the removal of a slash at the end; and the two settings.
pub record Storage : Type 0 where
  pub write : String → Buffer → Files → Option Files
  pub unlink : String → Files → Option Files
  pub sha256 : Buffer → String
  pub sanitize : String → String
  pub cut : ℕ → String → String
  pub encode : String → String
  pub without_slash : String → String
  pub max_size_mb : ℕ
  pub base_url : String

pub record Upload : Type 0 where
  pub buffer : Buffer
  pub original_name : String
  pub version : String
  pub charger_model : Option String
  pub charger_vendor : Option String
  pub uploaded_by : String
  pub notes : Option String

pub record UpdateFirmware : Type 0 where
  pub version : Option String
  pub charger_model : Option String
  pub charger_vendor : Option String
  pub is_active : Option Bool
  pub notes : Option String

abbrev pub changed : UpdateFirmware → Firmware → Firmware
changed d r = record r {
  version = over d.version r.version;
  charger_model = over_null d.charger_model r.charger_model;
  charger_vendor = over_null d.charger_vendor r.charger_vendor;
  is_active = over d.is_active r.is_active;
  notes = over_null d.notes r.notes;
}

abbrev pub has_id : ℕ → Firmware → Bool
has_id id r = r.id == id

abbrev pub has_sha256 : String → Firmware → Bool
has_sha256 sha256 r = str_eq r.sha256 sha256

abbrev pub uses_firmware : ℕ → Campaign → Bool
uses_firmware id r = r.firmware_id == id

module _ (c : Context) where
  unfoldable pub find_by_id : ℕ → Service Firmware
  find_by_id id = do
    found ← λ s. reads (c.client.find_first (has_id id) s.firmwares) s
    elim found [ none ↦ refuse (not_found "firmware:notFound") | some r ↦ give r ]

  pub update : ℕ → UpdateFirmware → Service Firmware
  unfolding find_by_id
  update id d = do
    find_by_id id
    λ s.
        answers (c.client.update (has_id id) (changed d) s.firmwares)
          (λ t. record s { firmwares = t }) s

  module _ (x : Storage) where
    -- `<sha256_prefix>-<sanitized_original>`
    abbrev pub stored_name : Upload → String
    stored_name p = x.cut 12 (x.sha256 p.buffer) ++ "-" ++ x.cut 200 (x.sanitize p.original_name)

    abbrev pub uploaded : Upload → ℕ → Firmware
    uploaded p id = record {
      id = id;
      filename = stored_name p;
      original_name = p.original_name;
      version = p.version;
      charger_model = p.charger_model;
      charger_vendor = p.charger_vendor;
      file_size = p.buffer.length;
      sha256 = x.sha256 p.buffer;
      uploaded_by = p.uploaded_by;
      is_active = true;
      notes = p.notes;
    }

    -- `fs.unlink`, whose error is caught.
    pub unlink_quietly : String → Files → Files
    unlink_quietly name files = elim (x.unlink name files) [ none ↦ files | some t ↦ t ]

    -- The row is created; if that fails, the file goes again.
    pub save_row : Upload → Files → Db → Outcome Firmware × Files
    unfolding unlink_quietly
    save_row p files s = elim (c.client.create (λ r. r.id) (uploaded p) s.firmwares) [
      | none ↦ (refused database s, unlink_quietly (stored_name p) files)
      | some (r, t) ↦ (done r (record s { firmwares = t }), files)
    ]

    pub save_file : Upload → Files → Db → Outcome Firmware × Files
    unfolding save_row
    save_file p files s = elim (x.write (stored_name p) p.buffer files) [
      | none ↦ (refused file_system s, files)
      | some t ↦ save_row p t s
    ]

    pub save_new : Upload → Option (Option Firmware) → Files → Db → Outcome Firmware × Files
    unfolding save_file
    save_new p none files s = (refused database s, files)
    save_new p (some (some r)) files s = (refused (conflict "firmware:duplicateBinary") s, files)
    save_new p (some none) files s = save_file p files s

    pub upload : Upload → Files → Db → Outcome Firmware × Files
    unfolding save_new
    upload p files s =
        if p.buffer.length == 0
        then (refused (bad_request "firmware:emptyFile") s, files)
        else if ltb (x.max_size_mb * 1024 * 1024) p.buffer.length
        then (refused (bad_request "firmware:fileTooLarge") s, files)
        else save_new p (c.client.find_first (has_sha256 (x.sha256 p.buffer)) s.firmwares) files s

    -- The checks of `delete` and the row's deletion, before the file's.
    pub delete_row : ℕ → Service Firmware
    unfolding find_by_id
    delete_row id = do
      fw ← find_by_id id
      n ← λ s. reads (c.client.count (uses_firmware id) s.campaigns) s
      (if ltb 0 n then refuse (conflict "firmware:hasCampaigns") else give tt)
      λ s. writes (c.client.delete (has_id id) s.firmwares) (λ t. record s { firmwares = t }) s
      give fw

    pub delete : ℕ → Files → Db → Outcome Firmware × Files
    unfolding delete_row unlink_quietly
    delete id files s = elim (delete_row id s) [
      | done fw t ↦ (done fw t, unlink_quietly fw.filename files)
      | refused e t ↦ (refused e t, files)
    ]

    unfoldable pub build_download_url : String → String
    build_download_url filename = x.without_slash x.base_url ++ "/" ++ x.encode filename
