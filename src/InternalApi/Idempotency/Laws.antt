-- ===== src/InternalApi/Idempotency/Laws.antt =====
-- A request that is sent twice.
use pvpentech_core.Common.{
  ◌≡◌, ◌≢◌, inl, inr, refl, String, true, false, none, some, arith, str_eq, str_eq_iff, str_eq_refl,
  ltb, lookup, insert, lookup-insert, if◌then◌else◌, Bool-cases,
}
use pvpentech_core.Value.{num, Json}
use pvpentech_core.InternalApi.Idempotency.{
  Store, Redis, IsRunning, redis_key, in_progress_marker, Response, absent, in_progress, completed,
  cached_value, get_cached, set_in_progress, set_completed, answered, replayed, duplicate_request,
  keep_answer, handle_first, serve_cached, serve,
}

-- What JSON does for the kept text of an answer: reading the text gives the value, and the text is
-- neither empty nor the marker.
pub record IsKept (js : Json) (a : Response) : Type 0 where
  pub reads : js.parse (js.stringify (cached_value a)) ≡ some (cached_value a)
  pub not_empty : js.stringify (cached_value a) ≢ ""
  pub not_marker : js.stringify (cached_value a) ≢ in_progress_marker

module _ (r : Redis) (running : IsRunning r) (js : Json) where
  -- What is found of a key after it was marked, and after its answer was kept.
  get_cached_at :
      (key v : String) (s : Store)
      → lookup (redis_key key) s ≡ some v
      → str_eq v "" ≡ false
      → str_eq v in_progress_marker ≡ true
      → get_cached r js key s ≡ in_progress
  unfolding get_cached
  get_cached_at key v s e full marked = rw (running.read_lem (redis_key key) s, e) (ground arith)

  get_cached_answer :
      (key : String) (a : Response) (s : Store)
      → IsKept js a
      → lookup (redis_key key) s ≡ some (js.stringify (cached_value a))
      → get_cached r js key s ≡ completed (cached_value a)
  unfolding get_cached
  get_cached_answer key a s kept e =
      let full : str_eq (js.stringify (cached_value a)) "" ≡ false =
        ground (arith, str_eq_iff (js.stringify (cached_value a)) "", kept.not_empty) in
      let other : str_eq (js.stringify (cached_value a)) in_progress_marker ≡ false =
        ground
          (arith, str_eq_iff (js.stringify (cached_value a)) in_progress_marker, kept.not_marker) in
      rw (running.read_lem (redis_key key) s, e, full, other, kept.reads) refl

  -- The store after the first request.
  abbrev after_first : String → Response → Store → Store
  after_first key a s = keep_answer r js key a (set_in_progress r js key s)

  marked_store :
      (key : String) (s : Store)
      → lookup (redis_key key) s ≡ none
      → set_in_progress r js key s ≡ insert (redis_key key) in_progress_marker s
  unfolding set_in_progress
  marked_store key s e = rw (running.set_new_lem (redis_key key) in_progress_marker s, e) refl

  found_after :
      (key : String) (a : Response) (s : Store)
      → IsKept js a
      → lookup (redis_key key) s ≡ none
      → get_cached r js key (after_first key a s)
        ≡ (if ltb a.status 500 then completed (cached_value a) else in_progress)
  unfolding keep_answer set_completed
  found_after key a s kept e =
      let k = redis_key key in
      let marked = insert k in_progress_marker s in
      let text = js.stringify (cached_value a) in
      let same : (v : String) (t : Store) → lookup k (insert k v t) ≡ some v =
        λ v t. rw (lookup-insert k k v t, str_eq_refl k) refl in
      rw (marked_store key s e) (elim (Bool-cases (ltb a.status 500)) [
        | inl low ↦
            rw (low, running.set_lem k text marked)
              (get_cached_answer key a (insert k text marked) kept (same text marked))
        | inr high ↦
            rw high
              (get_cached_at key in_progress_marker marked (same in_progress_marker s) refl refl)
      ])

  fresh_lem :
      (key : String) (s : Store) → lookup (redis_key key) s ≡ none → get_cached r js key s ≡ absent
  unfolding get_cached
  fresh_lem key s e = rw (running.read_lem (redis_key key) s, e) refl

  first_served :
      {S : Type 0} (first : S → Response × S) (key : String) (inner : S) (s : Store)
      → str_eq key "" ≡ false
      → lookup (redis_key key) s ≡ none
      → serve r js first (some key) inner s
        ≡ (answered (first inner).0, (first inner).1, after_first key (first inner).0 s)
  unfolding serve serve_cached handle_first
  first_served first key inner s named fresh = rw (named, fresh_lem key s fresh) refl

  -- What the second request gets, by what is found of its key.
  second_served :
      {T : Type 0} (second : T → Response × T) (key : String) (a : Response) (other : T) (s : Store)
      → str_eq key "" ≡ false
      → get_cached r js key s
        ≡ (if ltb a.status 500 then completed (cached_value a) else in_progress)
      → serve r js second (some key) other s
        ≡ (if ltb a.status 500 then replayed (num a.status) a.body else duplicate_request, other, s)
  unfolding serve serve_cached
  second_served second key a other s named found = elim (Bool-cases (ltb a.status 500)) [
    | inl low ↦ rw (named, found, low) refl
    | inr high ↦ rw (named, found, high) refl
  ]

  -- While Redis answers, a key that it does not have lets the first request through to its handler.
  -- A second request with the key then never reaches its handler and changes nothing: it gets
  -- the first answer's status and body if that status was below 500, and else the refusal 409.
  pub serve-serve :
      {S T : Type 0} (first : S → Response × S) (second : T → Response × T) (key : String)
      (inner : S) (other : T) (s : Store)
      → key ≢ ""
      → lookup (redis_key key) s ≡ none
      → IsKept js (first inner).0
      → let after = serve r js first (some key) inner s in
        (after.0 ≡ answered (first inner).0)
        × (after.1 ≡ (first inner).1)
        × (serve r js second (some key) other after.2 ≡ (
          if ltb (first inner).0.status 500
              then replayed (num (first inner).0.status) (first inner).0.body
              else duplicate_request,
          other,
          after.2,
        ))
  serve-serve first second key inner other s named fresh kept =
      let full : str_eq key "" ≡ false = ground (arith, str_eq_iff key "", named) in
      rw (first_served first key inner s full fresh) (
        refl,
        refl,
        second_served second key (first inner).0 other (after_first key (first inner).0 s) full
            (found_after key (first inner).0 s kept fresh),
      )
