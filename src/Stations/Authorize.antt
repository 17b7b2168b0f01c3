-- ===== src/Stations/Authorize.antt =====
-- packages/core/src/ocpp/handlers/authorize.handler.ts
use pvpentech_core.Common.{
  ℕ, ◌≡◌, ◌≢◌, ◌⊎◌, inl, inr, refl, String, Bool, false, Option, none, some, ltb, str_eq, arith,
  if◌then◌else◌, Option-cases,
}
use pvpentech_core.Database.Rows.{
  IdToken, IdTokenStatus, accepted, blocked, expired, invalid, concurrent_tx,
}
use pvpentech_core.Database.Client.{IsClient, Finds}
use pvpentech_core.Database.Monad.{Db, Context, M, ok, threw, pure, ◌>>=◌, asks}

pub record IdTagInfo : Type 0 where
  pub status : IdTokenStatus
  pub expiry_date : Option ℕ

abbrev pub has_tag : String → IdToken → Bool
has_tag id_tag r = str_eq r.id_tag id_tag

abbrev is_past : ℕ → Option ℕ → Bool
is_past now none = false
is_past now (some date) = ltb date now

-- The status of a token that is found.
abbrev token_status : ℕ → IdTokenStatus → Option ℕ → IdTokenStatus
token_status now accepted date = if is_past now date then expired else accepted
token_status now status date = status

abbrev pub tag_info : ℕ → Option IdToken → IdTagInfo
tag_info now none = record { status = invalid; expiry_date = none }
tag_info now (some r) = record {
  status = token_status now r.status r.expiry_date;
  expiry_date = r.expiry_date;
}

pub authorize : Context → String → M IdTagInfo
authorize c id_tag = do
  found ← λ s. asks (c.client.find_first (has_tag id_tag) s.id_tokens) s
  pure (tag_info c.now found)

-- A token whose date is over, if it has one, is not good now.
abbrev pub IsGood : ℕ → IdToken → Type 0
IsGood now r = (r.status ≡ accepted) × (is_past now r.expiry_date ≡ false)

status-cases : (status : IdTokenStatus) → (status ≡ accepted) ⊎ (status ≢ accepted)
status-cases accepted = inl refl
status-cases blocked = inr (λ h. absurd (cc))
status-cases expired = inr (λ h. absurd (cc))
status-cases invalid = inr (λ h. absurd (cc))
status-cases concurrent_tx = inr (λ h. absurd (cc))

accepted_token :
    (now : ℕ) (status : IdTokenStatus) (date : Option ℕ)
    → token_status now status date ≡ accepted
    → (status ≡ accepted) × (is_past now date ≡ false)
accepted_token now accepted date h = (refl, ground arith)
accepted_token now blocked date h = absurd (cc)
accepted_token now expired date h = absurd (cc)
accepted_token now invalid date h = absurd (cc)
accepted_token now concurrent_tx date h = absurd (cc)

-- The status is not Accepted, or it is that of a good token with the tag, whose date is the
-- answer's.
abbrev pub IsEarned : ℕ → String → IdTagInfo → Db → Type 0
IsEarned now id_tag info s =
    (info.status ≢ accepted)
    ⊎ ((r : IdToken) × Finds (has_tag id_tag) r s.id_tokens
        × IsGood now r
        × (info.expiry_date ≡ r.expiry_date))

tag_info-IsEarned :
    (now : ℕ) (id_tag : String) (r : IdToken) (s : Db)
    → Finds (has_tag id_tag) r s.id_tokens
    → IsEarned now id_tag (tag_info now (some r)) s
tag_info-IsEarned now id_tag r s hit =
    elim (status-cases (token_status now r.status r.expiry_date)) [
      | inl e ↦ inr (r, hit, accepted_token now r.status r.expiry_date e, refl)
      | inr e ↦ inl e
    ]

-- An Authorize request throws, with the state as it was, if the table cannot be read. Else it
-- answers, and leaves the state; and either the answer is not Accepted, or the table has a token
-- with the tag whose status is Accepted and whose date, if it has one, is not over, and the
-- answer has its date.
pub authorize-IsEarned :
    (c : Context) (l : IsClient c.client) (id_tag : String) (s : Db)
    → ((c.client.find_first (has_tag id_tag) s.id_tokens ≡ none) × (authorize c id_tag s ≡ threw s))
      ⊎ ((info : IdTagInfo) × (authorize c id_tag s ≡ ok info s) × IsEarned c.now id_tag info s)
unfolding authorize
authorize-IsEarned c l id_tag s =
    elim (Option-cases (c.client.find_first (has_tag id_tag) s.id_tokens)) [
      | inl e ↦ inl (e, ground arith)
      | inr (none, e) ↦ inr (tag_info c.now none, ground arith, inl (λ h. absurd (cc)))
      | inr (some r, e) ↦ inr (
        tag_info c.now (some r),
        ground arith,
        tag_info-IsEarned c.now id_tag r s (l.find_first-some (has_tag id_tag) s.id_tokens r e),
      )
    ]
