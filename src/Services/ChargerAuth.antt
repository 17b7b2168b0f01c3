-- ===== src/Services/ChargerAuth.antt =====
-- The request with which a charger exchanges its serial number: `manufacturerAuth` and then
-- `chargerAuth` of packages/core/src/controllers/provision.controller.ts.
use Prim.Native.String
use pvpentech_core.Common.{
  ℕ, Bool-cases, arith, ◌≤◌, ◌≡◌, ◌⊎◌, inl, inr, refl, String, Bool, ◌&&◌, Option, none, some, leb,
  ltb, if◌then◌else◌,
}
use pvpentech_core.Database.Rows.{Manufacturer, Provisioning}
use pvpentech_core.Database.Client.{IsClient}
use pvpentech_core.Database.Monad.{Db, Context}
use pvpentech_core.Services.{Failure, not_found, conflict, forbidden, Outcome, done, refused}
use pvpentech_core.Services.Provision.{Issuer, Provisioned, provision_db}
use pvpentech_core.Services.Provision.Laws.{Ends, IsIssued, provision_db-Ends}
use pvpentech_core.Services.Manufacturers.{
  Tokens, Verdict, unauthorized, server_error, passed, manufacturer_auth, IsKnown,
  manufacturer_auth-Answers,
}

-- The data of the answer 200.
pub record Credentials : Type 0 where
  pub client_id : String
  pub pwd : String
  pub ws_url : String

pub data Reply : Type 0 where
  ok_reply : Credentials → Reply
  error_reply : ℕ → Reply

-- `z.string().min(1).max(100)`; a field that is not there or is no text is `none`.
abbrev pub in_bounds : String → Bool
in_bounds s = ltb 0 (String.len s) && leb (String.len s) 100

-- The body `{ origin, model }`, if it is valid.
abbrev pub parse_body : Option String → Option String → Option (String × String)
parse_body (some origin) (some model) =
    if in_bounds origin && in_bounds model then some (origin, model) else none
parse_body (some origin) none = none
parse_body none model = none

abbrev pub code_of : Failure → ℕ
code_of (forbidden key) = 401
code_of (conflict key) = 409
code_of (not_found key) = 404
code_of _ = 500

module _ (c : Context) (x : Issuer) (tokens : Tokens) where
  abbrev credentials_of : Provisioned → Credentials
  credentials_of a = record {
    client_id = a.result.station_id;
    pwd = a.result.password;
    ws_url = a.result.csms_server;
  }

  reply_of : Outcome Provisioned → Reply × Db
  reply_of (done a t) = (ok_reply (credentials_of a), t)
  reply_of (refused e t) = (error_reply (code_of e), t)

  pub charger_auth : Option (String × String) → Manufacturer → Db → Reply × Db
  unfolding reply_of
  charger_auth none m s = (error_reply 400, s)
  charger_auth (some (origin, model)) m s =
      reply_of (provision_db c x origin (some model) (some m.id) s)

  after_auth : Option (String × String) → Verdict c tokens → Db → Reply × Db
  unfolding charger_auth
  after_auth body unauthorized s = (error_reply 401, s)
  after_auth body server_error s = (error_reply 500, s)
  after_auth body (passed m) s = charger_auth body m s

  -- The request with its headers `x-token` and `x-channel` and the two fields of its body, all but
  -- the end of an old connection.
  pub exchange : String → String → Option String → Option String → Db → Reply × Db
  unfolding after_auth
  exchange token channel origin model s =
      after_auth (parse_body origin model)
        (manufacturer_auth c tokens (some token) (some channel) s) s

  module _ (l : IsClient c.client) where
    -- A charger gets a password: what has been shown for it, and what is stored.
    pub record IsExchanged (token channel : String) (origin model : Option String) (s t : Db)
        (a : Credentials) : Type 0 where
      pub manufacturer : Manufacturer
      pub known : IsKnown c tokens token channel s manufacturer
      pub serial : String
      pub name : String
      pub serial_given : origin ≡ some serial
      pub name_given : model ≡ some name
      pub serial_fits : (1 ≤ String.len serial) × (String.len serial ≤ 100)
      pub name_fits : (1 ≤ String.len name) × (String.len name ≤ 100)
      pub row : Provisioning
      pub provisioned : Provisioned
      pub issued : IsIssued c l x serial (some name) (some manufacturer.id) s t row provisioned
      pub client_id : a.client_id ≡ provisioned.result.station_id
      pub pwd : a.pwd ≡ x.password
      pub ws_url : a.ws_url ≡ x.server_url

    -- The stations, the registrations and the sessions are as they were.
    abbrev pub Stays : Db → Db → Type 0
    Stays s t =
        (t.stations ≡ s.stations)
        × (t.provisioning ≡ s.provisioning)
        × (t.transactions ≡ s.transactions)

    abbrev pub Exchanges :
        String → String → Option String → Option String → Db → Reply × Db → Type 0
    Exchanges token channel origin model s after =
        ((code : ℕ) × (after.0 ≡ error_reply code) × Stays s after.1)
        ⊎ ((a : Credentials) × (after.0 ≡ ok_reply a)
            × IsExchanged token channel origin model s after.1 a)

    -- What a valid body is.
    IsBody : Option String → Option String → String → String → Type 0
    IsBody origin model serial name =
        (origin ≡ some serial)
        × (model ≡ some name)
        × ((1 ≤ String.len serial) × (String.len serial ≤ 100))
        × ((1 ≤ String.len name) × (String.len name ≤ 100))

    parse_body-cases :
        (origin model : Option String)
        → (parse_body origin model ≡ none)
          ⊎ ((serial : String) × (name : String) × (parse_body origin model ≡ some (serial, name))
              × IsBody origin model serial name)
    unfolding IsBody
    parse_body-cases none model = inl refl
    parse_body-cases (some serial) none = inl refl
    parse_body-cases (some serial) (some name) =
        elim (Bool-cases (in_bounds serial && in_bounds name)) [
          | inl e ↦ inr (
            serial,
            name,
            rw e refl,
            (refl, refl, (ground arith, ground arith), (ground arith, ground arith)),
          )
          | inr e ↦ inl (rw e refl)
        ]

    reply_of-Exchanges :
        (token channel : String) (origin model : Option String) (serial name : String)
        (m : Manufacturer) (s : Db) (after : Outcome Provisioned)
        → IsKnown c tokens token channel s m
        → IsBody origin model serial name
        → Ends c l x serial (some name) (some m.id) s after
        → Exchanges token channel origin model s (reply_of after)
    unfolding reply_of IsBody
    reply_of-Exchanges token channel origin model serial name m s after known body
          (inl (e, t, at, stays, why)) =
        rw at (inl (code_of e, refl, stays))
    reply_of-Exchanges token channel origin model serial name m s after known body
          (inr (row, a, t, at, issued)) =
        rw at (
          inr (
            credentials_of a,
            refl,
            record {
              manufacturer = m;
              known = known;
              serial = serial;
              name = name;
              serial_given = body.0;
              name_given = body.1;
              serial_fits = body.2;
              name_fits = body.3;
              row = row;
              provisioned = a;
              issued = issued;
              client_id = refl;
              pwd = issued.password;
              ws_url = issued.server;
            },
          ))

    charger_auth-Exchanges :
        (token channel : String) (origin model : Option String) (m : Manufacturer) (s : Db)
        → IsKnown c tokens token channel s m
        → Exchanges token channel origin model s (charger_auth (parse_body origin model) m s)
    unfolding charger_auth
    charger_auth-Exchanges token channel origin model m s known =
        elim (parse_body-cases origin model) [
          | inl e ↦ rw e (inl (400, refl, (refl, refl, refl)))
          | inr (serial, name, e, body) ↦ rw e (
              reply_of-Exchanges token channel origin model serial name m s _ known body
                (provision_db-Ends c l x serial (some name) (some m.id) s))
        ]

    -- Whichever calls of the client fail, the request of a charger for its password ends in one of
    -- two ways. It is refused with a code, and the stations, the registrations and the sessions are
    -- as they were. Or it is answered with a station id and a password, and then the headers name a
    -- manufacturer that is active and whose token they have, the body has a
    -- serial number and a model of 1 to 100 characters, the serial number is registered for that
    -- manufacturer and is neither rejected nor revoked, the password's hash is stored in the
    -- station's row, and the registration is provisioned with the station id of the answer.
    pub exchange-Exchanges :
        (token channel : String) (origin model : Option String) (s : Db)
        → Exchanges token channel origin model s (exchange token channel origin model s)
    unfolding exchange after_auth
    exchange-Exchanges token channel origin model s =
        elim (manufacturer_auth-Answers c tokens l token channel s) [
          | inl e ↦ rw e (inl (401, refl, (refl, refl, refl)))
          | inr (inl (e, broken)) ↦ rw e (inl (500, refl, (refl, refl, refl)))
          | inr (inr (m, e, known)) ↦
              rw e (charger_auth-Exchanges token channel origin model m s known)
        ]
