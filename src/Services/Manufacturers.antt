-- ===== src/Services/Manufacturers.antt =====
-- packages/core/src/services/manufacturer.service.ts, the repository that it calls, and
-- packages/core/src/middlewares/manufacturerAuth.middleware.ts: the makers of chargers and the
-- tokens with which they exchange serial numbers.
use pvpentech_core.Common.{
  ℕ, ◌==◌, ◌≡◌, ◌⊎◌, inl, inr, refl, String, Bool, true, false, Option, none, some, str_eq, is_some,
  subst, Bool-cases, if◌then◌else◌,
}
use pvpentech_core.Database.Rows.{Manufacturer}
use pvpentech_core.Database.Client.{IsClient, IsWorking, Finds}
use pvpentech_core.Database.Monad.{Db, Context}
use pvpentech_core.Services.{
  over, Failure, not_found, conflict, Service, give, refuse, ◌>>=◌, ◌>>◌, reads, answers,
}
use pvpentech_core.Services.Registration.{has_channel}

-- bcrypt, and the 64 hexadecimal digits of `generateRandomToken`.
pub record Tokens : Type 0 where
  pub hash : String → String
  pub compare : String → String → Bool
  pub random : String

pub record CreateManufacturer : Type 0 where
  pub channel_id : String
  pub name : String
  pub plain_token : Option String

pub record UpdateManufacturer : Type 0 where
  pub name : Option String
  pub is_active : Option Bool

pub record Issued : Type 0 where
  pub plain_token : String
  pub imported : Bool

-- `!!text`
abbrev is_set : Option String → Bool
is_set none = false
is_set (some a) = if str_eq a "" then false else true

abbrev pub has_id : ℕ → Manufacturer → Bool
has_id id r = r.id == id

abbrev no_manufacturer : Failure
no_manufacturer = not_found "manufacturer:notFound"

module _ (c : Context) where
  abbrev set_manufacturer : ℕ → (Manufacturer → Manufacturer) → Service Manufacturer
  set_manufacturer id f s =
      answers (c.client.update (has_id id) f s.manufacturers) (λ t. record s { manufacturers = t })
        s

  unfoldable pub find_by_id : ℕ → Service Manufacturer
  find_by_id id = do
    found ← λ s. reads (c.client.find_first (has_id id) s.manufacturers) s
    elim found [ none ↦ refuse no_manufacturer | some r ↦ give r ]

  pub update : ℕ → UpdateManufacturer → Service Manufacturer
  unfolding find_by_id
  update id d = do
    find_by_id id
    set_manufacturer id
        (λ r. record r { name = over d.name r.name; is_active = over d.is_active r.is_active })

  pub deactivate : ℕ → Service Manufacturer
  unfolding find_by_id
  deactivate id = do find_by_id id; set_manufacturer id (λ r. record r { is_active = false })

  module _ (x : Tokens) where
    abbrev pub new_manufacturer : CreateManufacturer → ℕ → Manufacturer
    new_manufacturer d id = record {
      id = id;
      channel_id = d.channel_id;
      name = d.name;
      token_hash = x.hash (over d.plain_token x.random);
      is_active = true;
    }

    abbrev issued : Option String → Issued
    issued token = record { plain_token = over token x.random; imported = is_set token }

    pub create : CreateManufacturer → Service (Manufacturer × Issued)
    create d = do
      existing ← λ s. reads (c.client.find_first (has_channel d.channel_id) s.manufacturers) s
      (if is_some existing then refuse (conflict "manufacturer:channelInUse") else give tt)
      r ← λ s.
          answers (c.client.create (λ r. r.id) (new_manufacturer d) s.manufacturers)
            (λ t. record s { manufacturers = t }) s
      give (r, issued d.plain_token)

    pub regenerate_token : ℕ → Option String → Service Issued
    unfolding find_by_id
    regenerate_token id token = do
      find_by_id id
      set_manufacturer id (λ r. record r { token_hash = x.hash (over token x.random) })
      give (issued token)

    -- `manufacturerAuth`: the answer 401 or 500, or the manufacturer that the request is from.
    pub data Verdict : Type 0 where
      unauthorized server_error : Verdict
      passed : Manufacturer → Verdict

    abbrev pub is_valid_token : String → Manufacturer → Bool
    is_valid_token token r = if str_eq r.token_hash "" then false else x.compare token r.token_hash

    abbrev check_found : String → Option (Option Manufacturer) → Verdict
    check_found token none = server_error
    check_found token (some none) = unauthorized
    check_found token (some (some r)) =
        if r.is_active
        then (if is_valid_token token r then passed r else unauthorized)
        else unauthorized

    abbrev check_headers : Bool → String → String → Db → Verdict
    check_headers false token channel s = unauthorized
    check_headers true token channel s =
        check_found token (c.client.find_first (has_channel channel) s.manufacturers)

    -- With the headers `x-token` and `x-channel`.
    pub manufacturer_auth : Option String → Option String → Db → Verdict
    manufacturer_auth (some token) (some channel) s =
        check_headers (if is_set (some token) then is_set (some channel) else false) token channel s
    manufacturer_auth (some token) none s = unauthorized
    manufacturer_auth none channel s = unauthorized

    -- What a request that passes has shown.
    pub record IsKnown (token channel : String) (s : Db) (r : Manufacturer) : Type 0 where
      pub hit : Finds (has_channel channel) r s.manufacturers
      pub active : r.is_active ≡ true
      pub same_token : is_valid_token token r ≡ true

    abbrev pub Answers : String → String → Db → Verdict → Type 1
    Answers token channel s v =
        (v ≡ unauthorized)
        ⊎ ((v ≡ server_error) × ¬ IsWorking c.client)
        ⊎ ((r : Manufacturer) × (v ≡ passed r) × IsKnown token channel s r)

    module _ (l : IsClient c.client) where
      check_found-Answers :
          (token channel : String) (s : Db) (found : Option (Option Manufacturer))
          → c.client.find_first (has_channel channel) s.manufacturers ≡ found
          → Answers token channel s (check_found token found)
      check_found-Answers token channel s none e =
          inr (inl (refl, λ works. works.finds _ s.manufacturers e))
      check_found-Answers token channel s (some none) e = inl refl
      check_found-Answers token channel s (some (some r)) e = elim (Bool-cases r.is_active) [
        | inr k ↦ inl (rw k refl)
        | inl k ↦ elim (Bool-cases (is_valid_token token r)) [
          | inr m ↦ inl (rw (k, m) refl)
          | inl m ↦ inr (
              inr (
                r,
                rw (k, m) refl,
                record {
                  hit = l.find_first-some (has_channel channel) s.manufacturers r e;
                  active = k;
                  same_token = m;
                },
              ))
        ]
      ]

      -- A request of a manufacturer passes only as one that has the channel of the request, is
      -- active, and has a token's hash that is not empty and that the request's token fits; the
      -- answer 500 is given only when the database is not working, and every other answer is 401.
      pub manufacturer_auth-Answers :
          (token channel : String) (s : Db)
          → Answers token channel s (manufacturer_auth (some token) (some channel) s)
      unfolding manufacturer_auth
      manufacturer_auth-Answers token channel s =
          elim (Bool-cases (if is_set (some token) then is_set (some channel) else false)) [
            | inr e ↦ inl (rw e refl)
            | inl e ↦
                subst (Answers token channel s) (rw e refl)
                  (check_found-Answers token channel s _ refl)
          ]
