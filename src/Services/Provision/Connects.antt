-- ===== src/Services/Provision/Connects.antt =====
-- What provision.service.ts hands out is what the upgrade of the charger's socket asks for.
use pvpentech_core.Common.{
  ◌≡◌, ◌≢◌, ◌⊎◌, inl, inr, refl, sym, subst, ◌∙◌, String, true, false, List, [], ◌∷◌, ◌++◌, ℕ,
  Option, none, some, arith, All, All-append, any, change, Bool-cases, Option-cases, if◌then◌else◌,
  str_eq, str_eq_iff, str_eq_refl,
}
use pvpentech_core.Auth.{
  Secrets, credentials, check_credentials, check_credentials-password, verdict_of, upgraded,
  unauthorized, verify_basic_auth, verify_client,
}
use pvpentech_core.Database.Rows.{Station, Provisioning}
use pvpentech_core.Database.Client.{IsClient, IsWorking, Finds}
use pvpentech_core.Database.Client.Tables.{any_of_Finds, Finds-last}
use pvpentech_core.Database.Monad.{Db, Context}
use pvpentech_core.Services.{Failure, done, refused}
use pvpentech_core.Services.Provision.{Issuer, Provisioned, new_station, rotated, provision_db}
use pvpentech_core.Services.Provision.Laws.{provision_db-Ends}
use pvpentech_core.Transactions.Start.{is_station}

-- Each row of the station has the hash.
abbrev AllHave : String → String → List Station → Type 0
AllHave id hash t = All (λ st. is_station id st ≡ true → st.password_hash ≡ some hash) t

Finds-AllHave :
    (id hash : String) (st : Station) (t : List Station)
    → AllHave id hash t
    → Finds (is_station id) st t
    → st.password_hash ≡ some hash
Finds-AllHave id hash st [] h hit = elim hit [ ]
Finds-AllHave id hash st (y ∷ ys) (p, h) (inl (same, e)) =
    subst (λ z. z.password_hash ≡ some hash) same
      (p (subst (λ z. is_station id z ≡ true) (sym same) e))
Finds-AllHave id hash st (y ∷ ys) (p, h) (inr hit) = Finds-AllHave id hash st ys h hit

module _ (c : Context) (x : Issuer) (serial : String) (model : Option String)
    (manufacturer_id : Option ℕ) where
  AllHave-rotated :
      (r : Provisioning) (id : String) (t : List Station)
      → AllHave id
          (x.hash x.password)
          (change (is_station id) (rotated c x serial model manufacturer_id r) t)
  AllHave-rotated r id [] = tt
  AllHave-rotated r id (y ∷ ys) = elim (Bool-cases (is_station id y)) [
    | inl e ↦ (λ h. ground arith, AllHave-rotated r id ys)
    | inr e ↦ (λ h. ground arith, AllHave-rotated r id ys)
  ]

  AllHave-none :
      (id hash : String) (t : List Station) → any (is_station id) t ≡ false → AllHave id hash t
  AllHave-none id hash [] h = tt
  AllHave-none id hash (y ∷ ys) h = (λ e. ground arith, AllHave-none id hash ys (ground arith))

  any-change_same :
      (r : Provisioning) (id : String) (t : List Station)
      → any (is_station id) (change (is_station id) (rotated c x serial model manufacturer_id r) t)
        ≡ any (is_station id) t
  any-change_same r id [] = refl
  any-change_same r id (y ∷ ys) = elim (Bool-cases (is_station id y)) [
    | inl e ↦ ground (arith, any-change_same r id ys)
    | inr e ↦ ground (arith, any-change_same r id ys)
  ]

  -- After the exchange the station is there and each of its rows has the hash.
  abbrev Holds : String → List Station → Type 0
  Holds id t = (any (is_station id) t ≡ true) × AllHave id (x.hash x.password) t

  stored-Holds :
      (r : Provisioning) (id : String) (t : List Station)
      → Holds id (
          if any (is_station id) t
          then change (is_station id) (rotated c x serial model manufacturer_id r) t
          else t ++ new_station c x serial model manufacturer_id r id ∷ [])
  stored-Holds r id t = elim (Bool-cases (any (is_station id) t)) [
    | inl e ↦ rw e (any-change_same r id t ∙ e, AllHave-rotated r id t)
    | inr e ↦
        let new = new_station c x serial model manufacturer_id r id in
        rw e (
          any_of_Finds (is_station id) new _ (Finds-last (is_station id) new t (str_eq_refl id)),
          All-append _ t (new ∷ []) (AllHave-none id (x.hash x.password) t e) (λ h. refl, tt),
        )
  ]

  module _ (l : IsClient c.client) where
    verify-Holds :
        (works : IsWorking c.client) (y : Secrets) (id : String) (header : Option String)
        (t : List Station)
        → x.hash x.password ≢ ""
        → Holds id t
        → verify_client c.client y id header t
          ≡ verdict_of (some (check_credentials y id (x.hash x.password) (credentials y header)))
    unfolding verify_client verify_basic_auth
    verify-Holds works y id header t named (there, have) =
        elim (Option-cases (c.client.find_first (is_station id) t)) [
          | inl e ↦ absurd (works.finds _ t e)
          | inr (none, e) ↦ absurd (cc (there, l.find_first-none _ t e))
          | inr (some st, e) ↦
              let hit = l.find_first-some (is_station id) t st e in
              let hash = Finds-AllHave id (x.hash x.password) st t have hit in
              let other : str_eq (x.hash x.password) "" ≡ false =
                ground (arith, str_eq_iff (x.hash x.password) "") in
              ground (arith, hash, other)
        ]

    -- The header has the station's id and a password that fits the hash.
    abbrev pub Fits : Secrets → String → String → Option String → Type 0
    Fits y id hash header =
        (password : String) × (credentials y header ≡ some (id, password))
        × (y.compare_password password hash ≡ true)

    verdict-Fits :
        (y : Secrets) (id hash : String) (header : Option String)
        → ((verdict_of (some (check_credentials y id hash (credentials y header))) ≡ upgraded)
            × Fits y id hash header)
          ⊎ ((verdict_of (some (check_credentials y id hash (credentials y header))) ≡ unauthorized)
              × ¬ Fits y id hash header)
    verdict-Fits y id hash header =
        elim (Bool-cases (check_credentials y id hash (credentials y header))) [
          | inl e ↦ inl (rw e refl, check_credentials-password y id hash (credentials y header) e)
          | inr e ↦ inr (
            rw e refl,
            λ (password, split, same).
                let fits : check_credentials y id hash (credentials y header) ≡ true =
                  rw (split, str_eq_refl id) same in
                absurd (ground (arith, e, fits)),
          )
        ]

    -- While the database answers the queries, a serial number is not exchanged, or the upgrade of the
    -- station's socket then goes through if its header has the station's id and a password that fits
    -- the hash of the one that was handed out, and is refused as not authorized if not.
    pub verify_client-provision :
        (works : IsWorking c.client) (y : Secrets) (header : Option String) (s : Db)
        → x.hash x.password ≢ ""
        → ((e : Failure) × (t : Db) × (provision_db c x serial model manufacturer_id s
              ≡ refused e t))
          ⊎ ((a : Provisioned) × (t : Db) × (provision_db c x serial model manufacturer_id s
                ≡ done a t)
              × (((verify_client c.client y a.result.station_id header t.stations ≡ upgraded)
                    × Fits y a.result.station_id (x.hash a.result.password) header)
                  ⊎ ((verify_client c.client y a.result.station_id header t.stations ≡ unauthorized)
                      × ¬ Fits y a.result.station_id (x.hash a.result.password) header)))
    verify_client-provision works y header s named =
        elim (provision_db-Ends c l x serial model manufacturer_id s) [
          | inl (e, t, at, stays, why) ↦ inl (e, t, at)
          | inr (r, a, t, at, issued) ↦
              let verdict = verify-Holds works y a.result.station_id header t.stations named (
                subst (Holds a.result.station_id) (sym issued.stations)
                  (stored-Holds r a.result.station_id s.stations)) in
              inr (
                a,
                t,
                at,
                rw (issued.password, verdict)
                    (verdict-Fits y a.result.station_id (x.hash x.password) header),
              )
        ]
