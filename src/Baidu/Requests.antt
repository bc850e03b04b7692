-- ===== src/Baidu/Requests.antt =====
-- pan/driver/baidu_netdisk/methods.go: the requests, with the refresh of the access token.
pub mod Refresh
pub mod Caching
pub mod Files
use pan_client.Base.{
  ℕ, zero, suc, ◌+◌, ◌*◌, ◌-◌, ◌^◌, ◌==◌, Bool, true, false, not, ◌&&◌, ◌||◌, add64, ltb,
  if◌then◌else◌, List, [], ◌∷◌, ◌++◌, Text, codes, text_eq, is_empty, length, contains, Result, ok,
  err,
}
use pan_client.Errors.{GoError, nil, other, only_error, only_msg}
use pan_client.Download.Names.{format_int, decimal}
use pan_client.Drive.{Call, ◌>>=◌, ◌>>◌, return, fail, on_error}
use pan_client.Baidu.{
  BaiduProperties, BaiduFile, TokenResp, ApiReq, ApiResp, SliceResp, Server, State,
}

abbrev pub api_url : Text
api_url = codes "https://pan.baidu.com/rest/2.0"

-- The error code -6 as an int64 pattern.
abbrev pub minus_six : ℕ
minus_six = 2 ^ 64 - 6

abbrev pub is_expired : ApiResp → Bool
is_expired resp = (resp.errno == 111) || (resp.errno == minus_six)

-- The waits before the attempts of a request, in milliseconds.
abbrev pub request_waits : List ℕ
request_waits = 0 ∷ 1000 ∷ 2000 ∷ []

module _ {D : Type 0} where
  -- What stands for a listing that goes on for more rounds than are given: a nil error.
  abbrev pub no_return : GoError D
  no_return = nil

  abbrev pub retry_msg : ApiResp → GoError D
  retry_msg resp =
      only_msg
        (codes "errno: " ++ (format_int resp.errno ++ codes ", retrying after token refresh"))

  abbrev api_msg : ApiReq → ApiResp → GoError D
  api_msg req resp =
      only_msg
        (codes "baidu api errno: " ++ (format_int resp.errno ++ (codes ", url: " ++ req.url)))

module _ {W D : Type 0} (server : Server W D) where
  -- What follows the answer of the token server.
  unfoldable pub take_token : Result (GoError D) TokenResp → Call (State W) D (Unit {0})
  take_token (err e) s = (err e, s)
  take_token (ok resp) (c, (props, w)) =
      if resp.failed || not (is_empty resp.error)
      then (
        err (
            other (
              codes "refresh token error: "
              ++ (resp.error ++ (codes " - " ++ resp.error_description)))),
        (c, (props, w)),
      )
      else (if is_empty resp.refresh_token
          then (
            err (other (codes "empty refresh token returned, possibly wrong refresh token")),
            (c, (props, w)),
          )
          else (let changed = record props {
            access_token = resp.access_token;
            refresh_token = resp.refresh_token;
          } in
              (ok tt, (c, (changed, server.notify changed w)))))

  unfoldable pub refresh_token : Call (State W) D (Unit {0})
  unfolding take_token
  refresh_token (c, (props, w)) =
      let answer = server.get_token props.refresh_token props.client_id props.client_secret w in
      if is_empty props.client_id || is_empty props.client_secret
      then (err (other (codes "empty ClientId or ClientSecret")), (c, (props, w)))
      else take_token answer.0 (c, (props, answer.1))

  -- What follows the refresh of a token.
  unfoldable pub on_token :
      Call (State W) D ApiResp
      → Result (GoError D) (Unit {0}) × State W
      → Result (GoError D) ApiResp × State W
  on_token go (ok u, s) = go s
  on_token go (err e, s) = (err (only_error e), s)

  -- `retry` is the next attempt, with the error that is left if it is not made.
  unfoldable pub after_send :
      ApiReq
      → (GoError D → Call (State W) D ApiResp)
      → Result (GoError D) ApiResp
      → Call (State W) D ApiResp
  unfolding refresh_token on_token
  after_send req retry (err e) = retry (only_error e)
  after_send req retry (ok resp) =
      if resp.errno == 0
      then return resp
      else (if is_expired resp
          then (λ s. on_token (retry (retry_msg resp)) (refresh_token s))
          else fail (api_msg req resp))

  -- The attempts that are left, by their waits.
  unfoldable pub attempts : List ℕ → GoError D → ApiReq → Call (State W) D ApiResp
  unfolding after_send
  attempts [] last_err req s = (err last_err, s)
  attempts (wait ∷ waits) last_err req (c, (props, w)) =
      let slept = if wait == 0 then w else server.sleep wait w in
      let answer = server.send props.access_token req slept in
      after_send req (λ e. attempts waits e req) answer.0 (c, (props, answer.1))

  -- The answer as the caller decodes it.
  unfoldable pub request : ApiReq → Call (State W) D ApiResp
  unfolding attempts
  request req = attempts request_waits nil req

  unfoldable pub get : Text → List (Text × Text) → Call (State W) D ApiResp
  get pathname params =
      request (record { url = api_url ++ pathname; post = false; params = params; form = [] })

  unfoldable pub post_form :
      Text → List (Text × Text) → List (Text × Text) → Call (State W) D ApiResp
  post_form pathname params form =
      request (record { url = api_url ++ pathname; post = true; params = params; form = form })
