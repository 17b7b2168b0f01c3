-- ===== src/Auth.antt =====
-- `verifyOcppBasicAuth` of packages/shared/src/utils/auth.ts, which the upgrade of a charger's
-- socket asks (ocpp/server.ts).
use Prim.Native.String
use text.Mathlib.Text.{find?}
use pvpentech_core.Common.{
  ℕ, zero, ◌+◌, ◌≡◌, ◌⊎◌, inl, inr, refl, ap, ◌∙◌, str_eq_iff, String, Bool, true, false, List,
  Option, none, some, str_eq, arith, if◌then◌else◌, Option-cases, Bool-cases,
}
use pvpentech_core.Database.Rows.{Station}
use pvpentech_core.Database.Client.{Client, IsClient, Finds}
use pvpentech_core.Transactions.Start.{is_station}

-- The decoding of base64 as UTF-8, and the comparison of a password with its hash (bcrypt), which
-- are not in the repository.
pub record Secrets : Type 0 where
  pub decode : String → String
  pub compare_password : String → String → Bool

abbrev starts_basic : Option ℕ → Bool
starts_basic (some zero) = true
starts_basic _ = false

-- `authHeader?.startsWith('Basic ')`
abbrev is_basic : String → Bool
is_basic header = starts_basic (find? header "Basic ")

-- The id and the password, at the first colon.
abbrev split_credentials : String → Option ℕ → Option (String × String)
split_credentials decoded none = none
split_credentials decoded (some i) =
    some (String.slice decoded 0 i, String.slice decoded (i + 1) (String.len decoded))

unfoldable pub credentials : Secrets → Option String → Option (String × String)
credentials x none = none
credentials x (some header) =
    if is_basic header
    then (let decoded = x.decode (String.slice header 6 (String.len header)) in
        split_credentials decoded (find? decoded ":"))
    else none

abbrev pub check_credentials : Secrets → String → String → Option (String × String) → Bool
check_credentials x station hash none = false
check_credentials x station hash (some (id, password)) =
    if str_eq id station then x.compare_password password hash else false

-- `!station.passwordHash`: an empty hash counts as none.
abbrev pub check_hash : Secrets → String → Option String → Option String → Bool
check_hash x station none header = true
check_hash x station (some hash) header =
    if str_eq hash "" then true else check_credentials x station hash (credentials x header)

abbrev pub check_station : Secrets → String → Option Station → Option String → Bool
check_station x station none header = false
check_station x station (some r) header = check_hash x station r.password_hash header

-- `none` when the query is rejected; the upgrade is then refused with 500.
unfoldable pub verify_basic_auth :
    Client → Secrets → String → Option String → List Station → Option Bool
verify_basic_auth client x station header stations =
    elim (client.find_first (is_station station) stations) [
      | none ↦ none
      | some found ↦ some (check_station x station found header)
    ]

-- What `verifyClient` answers the upgrade with.
pub data Verdict : Type 0 where
  upgraded unauthorized server_error : Verdict

abbrev pub verdict_of : Option Bool → Verdict
verdict_of none = server_error
verdict_of (some true) = upgraded
verdict_of (some false) = unauthorized

unfoldable pub verify_client : Client → Secrets → String → Option String → List Station → Verdict
unfolding verify_basic_auth
verify_client client x station header stations =
    verdict_of (verify_basic_auth client x station header stations)

-- The station is open to all, or the header has its id and the password of its hash.
abbrev pub IsAllowed : Secrets → String → Option String → Station → Type 0
IsAllowed x station header r =
    (r.password_hash ≡ none)
    ⊎ (r.password_hash ≡ some "")
    ⊎ ((hash : String) × (password : String) × (r.password_hash ≡ some hash)
        × (credentials x header ≡ some (station, password))
        × (x.compare_password password hash ≡ true))

pub check_credentials-password :
    (x : Secrets) (station hash : String) (pair : Option (String × String))
    → check_credentials x station hash pair ≡ true
    → (password : String) × (pair ≡ some (station, password))
      × (x.compare_password password hash ≡ true)
check_credentials-password x station hash none h = absurd (cc)
check_credentials-password x station hash (some (id, password)) h =
    elim (Bool-cases (str_eq id station)) [
      | inl e ↦ (password, ap (λ i. some (i, password)) ((str_eq_iff id station).0 e), ground arith)
      | inr e ↦ absurd (ground arith)
    ]

check_hash-IsAllowed :
    (x : Secrets) (station : String) (header : Option String) (r : Station) (hash : Option String)
    → r.password_hash ≡ hash
    → check_hash x station hash header ≡ true
    → IsAllowed x station header r
check_hash-IsAllowed x station header r none e h = inl e
check_hash-IsAllowed x station header r (some hash) e h = elim (Bool-cases (str_eq hash "")) [
  | inl k ↦ inr (inl (e ∙ ap some ((str_eq_iff hash "").0 k)))
  | inr k ↦
      let (password, split, same) =
        check_credentials-password x station hash (credentials x header) (ground arith) in
      inr (inr (hash, password, e, split, same))
]

-- An upgrade is answered with a server error just if the query for the station is rejected. Else it
-- is refused as not authorized, or it goes through, and then the station is in the table and has no
-- password hash, or an empty one, or the header has the station's id and a password of its hash.
pub verify_client-IsAllowed :
    (client : Client) (l : IsClient client) (x : Secrets) (station : String)
    (header : Option String) (stations : List Station)
    → ((client.find_first (is_station station) stations ≡ none)
        × (verify_client client x station header stations ≡ server_error))
      ⊎ (verify_client client x station header stations ≡ unauthorized)
      ⊎ ((verify_client client x station header stations ≡ upgraded)
          × (r : Station) × Finds (is_station station) r stations
          × IsAllowed x station header r)
unfolding verify_client verify_basic_auth
verify_client-IsAllowed client l x station header stations =
    elim (Option-cases (client.find_first (is_station station) stations)) [
      | inl e ↦ inl (e, ground arith)
      | inr (none, e) ↦ inr (inl (ground arith))
      | inr (some r, e) ↦ elim (Bool-cases (check_hash x station r.password_hash header)) [
        | inl k ↦ inr (
            inr (
              ground arith,
              r,
              l.find_first-some (is_station station) stations r e,
              check_hash-IsAllowed x station header r r.password_hash refl k,
            ))
        | inr k ↦ inr (inl (ground arith))
      ]
    ]
