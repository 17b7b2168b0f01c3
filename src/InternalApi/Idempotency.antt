-- ===== src/InternalApi/Idempotency.antt =====
-- packages/core/src/internal-api/idempotency.middleware.ts: a request that is sent again with its
-- key gets the first answer.
pub mod Laws
use Prim.Native.String.{◌++◌}
use pvpentech_core.Common.{
  ℕ, ◌≡◌, String, Bool, true, false, List, [], ◌∷◌, Option, none, some, str_eq, ltb, lookup, insert,
  is_some, if◌then◌else◌,
}
use pvpentech_core.Value.{Value, undefined, null, num, obj, field, end, prop, is_nullish, Json}

-- The keys of Redis and their texts. An entry may be gone at any time, as its time runs out.
abbrev pub Store : Type 0
Store = List (String × String)

-- Redis, which is not in the repository: `none` when a call is rejected. `set_new` is `SET … NX`.
pub record Redis : Type 0 where
  pub read : String → Store → Option (Option String)
  pub set : String → String → Store → Option Store
  pub set_new : String → String → Store → Option Store

-- A Redis whose server is there. `NX` leaves an entry that is there.
pub record IsRunning (r : Redis) : Type 0 where
  pub read_lem : (k : String) (s : Store) → r.read k s ≡ some (lookup k s)
  pub set_lem : (k v : String) (s : Store) → r.set k v s ≡ some (insert k v s)
  pub set_new_lem :
      (k v : String) (s : Store)
      → r.set_new k v s ≡ some (if is_some (lookup k s) then s else insert k v s)

unfoldable pub redis_key : String → String
redis_key key = "idempotency:internal:" ++ key

abbrev pub in_progress_marker : String
in_progress_marker = "__IN_PROGRESS__"

pub record Response : Type 0 where
  pub status : ℕ
  pub body : Value

-- What `getCached` finds.
pub data Cached : Type 0 where
  absent in_progress : Cached
  completed : Value → Cached

-- The text `{ status, body }` that is kept of an answer.
abbrev pub cached_value : Response → Value
cached_value a = obj (field "status" (num a.status) (field "body" a.body end))

-- `JSON.parse`, whose error counts as nothing found.
abbrev of_value : Option Value → Cached
of_value none = absent
of_value (some v) = if is_nullish v then absent else completed v

abbrev pub of_text : Json → Option String → Cached
of_text js none = absent
of_text js (some raw) =
    if str_eq raw ""
    then absent
    else if str_eq raw in_progress_marker
    then in_progress
    else of_value (js.parse raw)

abbrev or_nothing : Option (Option String) → Option String
or_nothing none = none
or_nothing (some raw) = raw

abbrev or_same : Option Store → Store → Store
or_same none s = s
or_same (some t) s = t

module _ (r : Redis) (js : Json) where
  unfoldable pub get_cached : String → Store → Cached
  get_cached key s = of_text js (or_nothing (r.read (redis_key key) s))

  unfoldable pub set_in_progress : String → Store → Store
  set_in_progress key s = or_same (r.set_new (redis_key key) in_progress_marker s) s

  unfoldable pub set_completed : String → Response → Store → Store
  set_completed key a s = or_same (r.set (redis_key key) (js.stringify (cached_value a)) s) s

  -- What the client gets: the handler's answer, a kept one, or 409.
  pub data Reply : Type 0 where
    answered : Response → Reply
    replayed : (status body : Value) → Reply
    duplicate_request : Reply

  -- The wrapped `res.json`: an answer of 500 or more is not kept.
  unfoldable pub keep_answer : String → Response → Store → Store
  unfolding set_completed
  keep_answer key a s = if ltb a.status 500 then set_completed key a s else s

  -- One request from its start to its answer, with the handler that it passes on to. The handler's
  -- own state is `S`.
  module _ {S : Type 0} (handler : S → Response × S) where
    abbrev pass : S → Store → Reply × S × Store
    pass inner s = (answered (handler inner).0, (handler inner).1, s)

    handle_first : String → S → Store → Reply × S × Store
    unfolding set_in_progress keep_answer
    handle_first key inner s = (
      answered (handler inner).0,
      (handler inner).1,
      keep_answer key (handler inner).0 (set_in_progress key s),
    )

    serve_cached : String → Cached → S → Store → Reply × S × Store
    unfolding handle_first
    serve_cached key in_progress inner s = (duplicate_request, inner, s)
    serve_cached key (completed v) inner s = (replayed (prop v "status") (prop v "body"), inner, s)
    serve_cached key absent inner s = handle_first key inner s

    -- `if (!idempotencyKey)`: an empty header is none.
    pub serve : Option String → S → Store → Reply × S × Store
    unfolding get_cached serve_cached
    serve none inner s = pass inner s
    serve (some key) inner s =
        if str_eq key "" then pass inner s else serve_cached key (get_cached key s) inner s
