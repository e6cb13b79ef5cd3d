-- ===== src/Persistence/Tokens.antt =====
-- server/internal/persistence/resume_tokens.go: one-time tokens in Redis. A Go string is the list
-- of its bytes. Redis, SHA-256 and the JSON of a route are the record `Backend`; `Documented` says
-- what their documentation promises of a command that answers, and how little of one that fails.
-- The client sends a command again when the answer is lost, so a `GETDEL` may answer that there was
-- nothing although it took the content away.
pub mod Single
pub mod Return
mod Tests
use the_return_of_the_odysse.Base.{
  ℕ, ◌≡◌, ◌≢◌, ◌⊎◌, Bool, true, false, not, ◌&&◌, ◌||◌, Option, none, some, List, [], ◌∷◌, ltb, leb,
  ◌==◌, if◌then◌else◌, length,
}
use the_return_of_the_odysse.Base.Results.{Result, ok, err, ◌>>◌, reject_if}

abbrev pub Bytes : Type 0
Bytes = List ℕ

pub data Error : Type 0 where
  invalid_resume_token invalid_session_key token_exists token_not_found : Error
  invalid_resume_route corrupt_resume_route resume_backend : Error

abbrev pub max_resume_token_bytes : ℕ
max_resume_token_bytes = 256

abbrev pub max_session_key_bytes : ℕ
max_session_key_bytes = 256

abbrev pub resume_route_version : ℕ
resume_route_version = 1

pub record ResumeRoute : Type 0 where
  pub version : ℕ
  pub session_id : ℕ
  pub player_id : ℕ
  pub room_id : ℕ
  pub generation : ℕ

-- `ResumeRoute.Validate`
pub validate : ResumeRoute → Result Error (Unit {0})
validate r =
    reject_if
      (not (r.version == resume_route_version)
        || r.session_id == 0
        || r.player_id == 0
        || r.room_id == 0
        || r.generation == 0)
      invalid_resume_route

-- The commands `SETNX` with a time to live, `GETDEL` and `DEL`; an error is `none`. `held` is the
-- live content under a key, and `lapse` the passing of time to the end of a key's life.
pub record Backend : Type 1 where
  pub Store : Type 0
  pub set_nx : Bytes → Bytes → Store → Option Bool × Store
  pub get_del : Bytes → Store → Option (Option Bytes) × Store
  pub del : Bytes → Store → Bool × Store
  pub lapse : Bytes → Store → Store
  pub held : Bytes → Store → Option Bytes
  pub key : Bytes → Bytes
  pub encode : ResumeRoute → Bytes
  pub decode : Bytes → Option ResumeRoute

-- What may be under a key after a command that did not promise more: what was, or nothing.
abbrev pub IsLess : Option Bytes → Option Bytes → Type 0
IsLess before after = (after ≡ before) ⊎ (after ≡ none)

pub record Documented (b : Backend) : Type 0 where
  pub set_nx-true :
      (k v : Bytes) (s : b.Store)
      → (b.set_nx k v s).0 ≡ some true
      → b.held k (b.set_nx k v s).1 ≡ some v
  pub get_del-gone :
      (k : Bytes) (s : b.Store) (found : Option Bytes)
      → (b.get_del k s).0 ≡ some found
      → b.held k (b.get_del k s).1 ≡ none
  pub get_del-found :
      (k v : Bytes) (s : b.Store) → (b.get_del k s).0 ≡ some (some v) → b.held k s ≡ some v
  pub get_del-less : (k j : Bytes) (s : b.Store) → IsLess (b.held j s) (b.held j (b.get_del k s).1)
  pub del-true : (k : Bytes) (s : b.Store) → (b.del k s).0 ≡ true → b.held k (b.del k s).1 ≡ none
  pub del-less : (k j : Bytes) (s : b.Store) → IsLess (b.held j s) (b.held j (b.del k s).1)
  pub lapse-less : (k j : Bytes) (s : b.Store) → IsLess (b.held j s) (b.held j (b.lapse k s))
  pub set_nx-other :
      (k j v : Bytes) (s : b.Store) → (j ≡ k) ⊎ IsLess (b.held j s) (b.held j (b.set_nx k v s).1)

-- `validOpaqueValue`
pub valid_opaque_value : Bytes → ℕ → Bool
valid_opaque_value value most = ltb 0 (length value) && leb (length value) most

abbrev pub issued : Option Bool → Result Error (Unit {0})
issued none = err resume_backend
issued (some true) = ok tt
issued (some false) = err token_exists

-- `Issue`
unfoldable pub issue : (b : Backend) → Bytes → Bytes → b.Store → Result Error (Unit {0}) × b.Store
issue b token session_key s =
    if not (valid_opaque_value token max_resume_token_bytes)
    then (err invalid_resume_token, s)
    else if not (valid_opaque_value session_key max_session_key_bytes)
    then (err invalid_session_key, s)
    else let (stored, s') = b.set_nx (b.key token) session_key s in (issued stored, s')

abbrev pub consumed : Option (Option Bytes) → Result Error Bytes
consumed none = err resume_backend
consumed (some none) = err token_not_found
consumed (some (some v)) = ok v

-- `Consume`
unfoldable pub consume : (b : Backend) → Bytes → b.Store → Result Error Bytes × b.Store
consume b token s =
    if not (valid_opaque_value token max_resume_token_bytes)
    then (err invalid_resume_token, s)
    else let (found, s') = b.get_del (b.key token) s in (consumed found, s')

-- `IssueRoute`
unfoldable pub issue_route :
    (b : Backend) → Bytes → ResumeRoute → b.Store → Result Error (Unit {0}) × b.Store
unfolding validate
issue_route b token route s = elim (validate route) [
  | err e ↦ (err e, s)
  | ok _ ↦ issue b token (b.encode route) s
]

abbrev pub checked_route : Option ResumeRoute → Result Error ResumeRoute
checked_route none = err corrupt_resume_route
checked_route (some route) = elim (validate route) [
  | err e ↦ err corrupt_resume_route
  | ok _ ↦ ok route
]

-- `ConsumeRoute`
unfoldable pub consume_route : (b : Backend) → Bytes → b.Store → Result Error ResumeRoute × b.Store
consume_route b token s =
    let (payload, s') = consume b token s in
    (elim payload [ err e ↦ err e | ok bytes ↦ checked_route (b.decode bytes) ], s')

-- `Revoke`
unfoldable pub revoke : (b : Backend) → Bytes → b.Store → Result Error (Unit {0}) × b.Store
revoke b token s =
    if not (valid_opaque_value token max_resume_token_bytes)
    then (err invalid_resume_token, s)
    else let (done, s') = b.del (b.key token) s in (if done then ok tt else err resume_backend, s')
