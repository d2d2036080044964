-- ===== src/Mail/Token.antt =====
-- backend/domestic_oracle/atomicmail_client.py: the capability token of the mail service, which is kept
-- in memory and in a file, and renewed by the session token or by the proof of work.
use Prim.Native.String.{◌++◌ as append_text}
use text.Mathlib.Text.{starts_with}
use domesticoracle.Prelude.{
  ℕ, ◌-◌, ◌%◌, String, Bool, ◌&&◌, not, Option, none, some, List, [], ◌∷◌, ◌==◌, text_eq,
  if◌then◌else◌,
}
use domesticoracle.Prelude.Int.{pos}
use domesticoracle.Python.{
  Python, Json, str, num, obj, get, get_default, float_of, to_int, dict_of, Num, num_of, ◌<?◌, ◌+?◌,
  concat, text_length, drop_text, repeat_text,
}
use domesticoracle.Mail.Work.{Search, solved, too_short, unsolved, solve_pow}

-- The fields of credentials.json that are used here.
pub record Creds : Type 0 where
  pub auth_url : String
  pub api_key : String
  pub inbox_id : String
  pub salt : String

-- The two module-level caches and the two files.
pub record Tokens : Type 0 where
  pub cached : String
  pub cached_exp : Num
  pub cap_file : Option String
  pub session_file : Option String

-- What a POST gives: the Authorization header of a good response, or the error.
pub data Net : Type 0 where
  authorized : String → Net
  net_error : String → Net

-- A call's result; `unfinished` where the proof of work needs more fuel.
pub data Result : Type 0 where
  got : String → Result
  mail_error : String → Result
  raised : String → Result
  unfinished : Result

-- The library functions: httpx.post with url, bearer token and body, `s.split(".")`,
-- base64.b64decode as text, scrypt, and `json.dumps(v)`.
pub record Library (W : Type 0) : Type 0 where
  pub post : (url bearer body : String) → W → Net × W
  pub split_dots : String → List String
  pub decode : String → Option String
  pub scrypt : String → String → List ℕ
  pub hex : List ℕ → String
  pub dumps_line : Json → String

module _ {W : Type 0} (py : Python) (lib : Library W) where
  abbrev padded : String → String
  padded s = append_text s (repeat_text "=" ((4 - text_length s % 4) % 4))

  -- `token.split(".")[1]`, decoded and read; `none` where one of these raises.
  unfoldable pub payload_of : List String → Option Json
  payload_of (header ∷ body ∷ rest) = elim (lib.decode (padded body)) [
    | none ↦ none
    | some text ↦ py.loads text
  ]
  payload_of parts = none

  unfoldable pub exp_of : Option Json → Num
  exp_of (some (obj d)) = elim (float_of py (get_default "exp" (num (num_of 0)) d)) [
    | none ↦ num_of 0
    | some x ↦ x
  ]
  exp_of v = num_of 0

  unfoldable pub jwt_exp : String → Num
  unfolding payload_of exp_of
  jwt_exp token = exp_of (payload_of (lib.split_dots token))

  abbrev pub is_valid : Num → Num → Bool
  is_valid now exp = (now +? num_of 30) <? exp

  abbrev pub read_file : Option String → String
  read_file none = ""
  read_file (some text) = py.strip text

  abbrev bearer : String
  bearer = "Bearer "

  unfoldable pub renewed : Tokens → Net × W → Result × (Tokens × W)
  renewed s (net_error why, w) =
      (mail_error (concat ("Capability refresh failed: " ∷ why ∷ [])), (s, w))
  renewed s (authorized header, w) =
      if starts_with header bearer
      then (
        got (drop_text 7 header),
        (
          record s {
            cap_file = some (drop_text 7 header);
            cached = drop_text 7 header;
            cached_exp = jwt_exp (drop_text 7 header);
          },
          w,
        ),
      )
      else (mail_error "Capability response missing Bearer token", (s, w))

  -- `_refresh_capability`
  unfoldable pub refresh : Creds → String → Tokens → W → Result × (Tokens × W)
  unfolding renewed
  refresh creds session s w =
      renewed s (lib.post (concat (creds.auth_url ∷ "/api/v1/capability" ∷ [])) session "" w)

  unfoldable pub exchanged : Tokens → Net × W → Result × (Tokens × W)
  exchanged s (net_error why, w) =
      (mail_error (concat ("Session exchange failed: " ∷ why ∷ [])), (s, w))
  exchanged s (authorized header, w) =
      if starts_with header bearer
      then (got (drop_text 7 header), (record s { session_file = some (drop_text 7 header) }, w))
      else (mail_error "Session response missing Bearer token", (s, w))

  unfoldable pub exchange : Creds → String → Search → Tokens → W → Result × (Tokens × W)
  unfolding exchanged
  exchange creds challenge_jwt (solved pow_hex nonce) s w = exchanged s (
      lib.post (concat (creds.auth_url ∷ "/api/v1/session" ∷ [])) challenge_jwt
        (lib.dumps_line (
          obj (
            dict_of (
              ("powHex", str pow_hex)
              ∷ ("nonce", str nonce)
              ∷ ("apiKey", str creds.api_key)
              ∷ ("username", str creds.inbox_id)
              ∷ []))))
        w)
  exchange creds challenge_jwt too_short s w = (raised "index out of range", (s, w))
  exchange creds challenge_jwt unsolved s w = (unfinished, (s, w))

  -- The challenge's id, a text, and its difficulty, not negative, where the payload has them.
  unfoldable pub puzzle_of : Option Json → Option (String × ℕ)
  puzzle_of (some (obj d)) = elim (get "jti" d) [
    | some (str jti) ↦ elim (get "difficulty" d) [
      | none ↦ none
      | some v ↦ elim (to_int py v) [ some (pos n) ↦ some (jti, n) | _ ↦ none ]
    ]
    | _ ↦ none
  ]
  puzzle_of v = none

  unfoldable pub answer_challenge :
      ℕ → Creds → String → Option (String × ℕ) → Tokens → W → Result × (Tokens × W)
  unfolding exchange solve_pow
  answer_challenge fuel creds challenge_jwt none s w = (raised "unreadable challenge", (s, w))
  answer_challenge fuel creds challenge_jwt (some (challenge, difficulty)) s w =
      exchange creds challenge_jwt
        (solve_pow py lib.scrypt lib.hex challenge difficulty creds.salt fuel) s w

  unfoldable pub challenged : ℕ → Creds → Tokens → Net × W → Result × (Tokens × W)
  unfolding answer_challenge puzzle_of payload_of
  challenged fuel creds s (net_error why, w) =
      (mail_error (concat ("Auth challenge failed: " ∷ why ∷ [])), (s, w))
  challenged fuel creds s (authorized header, w) =
      if starts_with header bearer
      then answer_challenge fuel creds (drop_text 7 header)
          (puzzle_of (payload_of (lib.split_dots (drop_text 7 header)))) s w
      else (mail_error "Challenge response missing Bearer token", (s, w))

  -- `_perform_pow_session`
  unfoldable pub pow_session : ℕ → Creds → Tokens → W → Result × (Tokens × W)
  unfolding challenged
  pow_session fuel creds s w =
      challenged fuel creds s
        (lib.post (concat (creds.auth_url ∷ "/api/v1/challenge" ∷ [])) "" "" w)

  -- The last refresh, whose token must not be empty.
  unfoldable pub last_refresh : Result × (Tokens × W) → Result × (Tokens × W)
  last_refresh (got cap, after) =
      if cap == ""
      then (mail_error "Failed to obtain a capability JWT", after)
      else (got cap, after)
  last_refresh (other, after) = (other, after)

  unfoldable pub with_session : Creds → Result × (Tokens × W) → Result × (Tokens × W)
  unfolding last_refresh refresh
  with_session creds (got session, (s, w)) = last_refresh (refresh creds session s w)
  with_session creds (other, after) = (other, after)

  unfoldable pub by_pow : ℕ → Creds → Tokens → W → Result × (Tokens × W)
  unfolding with_session pow_session
  by_pow fuel creds s w = with_session creds (pow_session fuel creds s w)

  -- After a refresh by the stored session token: an empty token leads to the proof of work.
  unfoldable pub or_pow : ℕ → Creds → Result × (Tokens × W) → Result × (Tokens × W)
  unfolding by_pow
  or_pow fuel creds (got cap, (s, w)) =
      if cap == "" then by_pow fuel creds s w else (got cap, (s, w))
  or_pow fuel creds (other, after) = (other, after)

  unfoldable pub by_session : ℕ → Num → Creds → Tokens → W → Result × (Tokens × W)
  unfolding or_pow refresh by_pow
  by_session fuel now creds s w =
      let session = read_file s.session_file in
      if not (session == "") && is_valid now (jwt_exp session)
      then or_pow fuel creds (refresh creds session s w)
      else by_pow fuel creds s w

  unfoldable pub by_file : ℕ → Num → Creds → Tokens → W → Result × (Tokens × W)
  unfolding by_session
  by_file fuel now creds s w =
      let cap = read_file s.cap_file in
      if not (cap == "") && is_valid now (jwt_exp cap)
      then (got cap, (record s { cached = cap; cached_exp = jwt_exp cap }, w))
      else by_session fuel now creds s w

  -- `_get_capability_jwt`
  unfoldable pub get_capability : ℕ → Num → Creds → Tokens → W → Result × (Tokens × W)
  unfolding by_file
  get_capability fuel now creds s w =
      if not (s.cached == "") && is_valid now s.cached_exp
      then (got s.cached, (s, w))
      else by_file fuel now creds s w
