-- ===== src/Api/Auth.antt =====
-- freqpanda_api/auth.py. The keys of the settings are given, and `hash_key` is _hash_key (hashlib's
-- SHA-256, in hexadecimal).
use freqpanda.Prelude.{
  String, ◌≡◌, refl, ◌∙◌, Bool, Bool-cases, true, ◌&&◌, List, [], ◌∷◌, inl, inr, str_eq, eq_iff,
  All, arith, if◌then◌else◌,
}
use freqpanda.Prelude.Result.{Result, ok, err, ◌>>=◌}
use freqpanda.Strategy.Schema.{contains}

-- A server error for no keys at all, a 401, and the TypeError of compare_digest.
pub data AuthError : Type 0 where
  no_keys unauthorized type_error : AuthError

module _ (is_ascii : String → Bool) where
  -- hmac.compare_digest of two strings, which takes ASCII only.
  abbrev pub compare_digest : String → String → Result AuthError Bool
  compare_digest a b = if is_ascii a && is_ascii b then ok (str_eq a b) else err type_error

  module _ (hash_key : String → String) where
    unfoldable pub find_key : List String → String → Result AuthError String
    find_key [] x_api_key = err unauthorized
    find_key (configured_key ∷ keys) x_api_key = do
      let rest = find_key keys x_api_key
      equal ← compare_digest configured_key x_api_key
      (if equal then ok (hash_key configured_key) else rest)

    unfoldable pub require_api_key : List String → String → Result AuthError String
    unfolding find_key
    require_api_key [] x_api_key = err no_keys
    require_api_key (key ∷ keys) x_api_key = find_key (key ∷ keys) x_api_key

    abbrev pub answer : List String → String → Result AuthError String
    answer keys x_api_key =
        if is_ascii x_api_key
        then (if contains x_api_key keys then ok (hash_key x_api_key) else err unauthorized)
        else err type_error

    find_key_lem :
        (keys : List String) (x_api_key : String)
        → All (λ k. is_ascii k ≡ true) keys
        → is_ascii x_api_key ≡ true
        → find_key keys x_api_key
          ≡ (if contains x_api_key keys then ok (hash_key x_api_key) else err unauthorized)
    unfolding find_key contains
    find_key_lem [] x_api_key h ascii = refl
    find_key_lem (k ∷ keys) x_api_key h ascii = elim (Bool-cases (str_eq k x_api_key)) [
      | inl same ↦
          let e : k ≡ x_api_key = (eq_iff k x_api_key).0 same in ground (arith, h.0, ascii, same, e)
      | inr other ↦ ground (arith, h.0, ascii, other, find_key_lem keys x_api_key h.1 ascii)
    ]

    -- Where the configured keys are ASCII, the caller of a configured key is its hash, and any other ASCII
    -- key is answered with a 401. A key that is not ASCII is a TypeError, and so a server error.
    pub require_api_key_lem :
        (key : String) (keys : List String) (x_api_key : String)
        → All (λ k. is_ascii k ≡ true) (key ∷ keys)
        → require_api_key (key ∷ keys) x_api_key ≡ answer (key ∷ keys) x_api_key
    unfolding require_api_key find_key
    require_api_key_lem key keys x_api_key h = elim (Bool-cases (is_ascii x_api_key)) [
      | inl ascii ↦ find_key_lem (key ∷ keys) x_api_key h ascii ∙ ground (arith, ascii)
      | inr other ↦ ground (arith, h.0, other)
    ]
