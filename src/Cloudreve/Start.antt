-- ===== src/Cloudreve/Start.antt =====
-- pan/driver/cloudreve/driver.go and methods.go: `Init` and `config`, which refreshes the session. The clients of the request library
-- that `Init` sets up are left out.
use pan_client.Base.{
  ℕ, ◌*◌, ◌/◌, ◌==◌, Bool, ◌||◌, sub64, lt64, if◌then◌else◌, List, [], ◌∷◌, Text, codes, text_eq,
  is_empty, Result, ok, err,
}
use pan_client.Errors.{GoError, other, only_msg}
use pan_client.Cloudreve.{CloudreveProperties, SiteConfig, Server}
use pan_client.Cloudreve.Replies.{fun_return_by_success}

-- The cookies, of which the last that is the session counts.
unfoldable pub take_cookies : ℕ → List (Text × Text) → CloudreveProperties → CloudreveProperties
take_cookies now [] props = props
take_cookies now ((name, value) ∷ cookies) props = take_cookies now cookies (
    if text_eq name (codes "cloudreve-session")
    then record props { session = value; refresh_time = now }
    else props)

module _ {W D : Type 0} (server : Server W D) where
  -- `time.Now().UnixMilli()`; the clock counts nanoseconds.
  abbrev pub unix_milli : W → ℕ
  unix_milli w = server.clock w / 1000000

  after_config :
      CloudreveProperties
      → Result (GoError D) SiteConfig
      → W
      → Result (GoError D) CloudreveProperties × W
  after_config props (err e) w = (err e, w)
  after_config props (ok site) w =
      if site.anonymous
      then (err (only_msg (codes "session is expired")), w)
      else (ok (take_cookies (unix_milli w) site.cookies props), w)

  unfoldable pub config : CloudreveProperties → W → Result (GoError D) CloudreveProperties × W
  unfolding after_config take_cookies
  config props w =
      let (reply, after) = server.get_config w in
      after_config props (fun_return_by_success reply) after

  -- A session that was refreshed within the hour is not refreshed again.
  abbrev pub is_stale : CloudreveProperties → W → Bool
  is_stale props w =
      (props.refresh_time == 0) || lt64 (60 * 60 * 1000) (sub64 (unix_milli w) props.refresh_time)

  refreshed :
      Result (GoError D) CloudreveProperties × W → Result (GoError D) CloudreveProperties × W
  refreshed (err e, w) = (err e, w)
  refreshed (ok props, w) =
      let changed = record props { refresh_time = unix_milli w } in
      (ok changed, server.notify changed w)

  unfoldable pub init : CloudreveProperties → W → Result (GoError D) CloudreveProperties × W
  unfolding config refreshed
  init props w =
      if is_empty props.url || is_empty props.session
      then (err (other (codes "please set cloudreve url and session")), w)
      else (if is_stale props w then refreshed (config props w) else (ok props, w))
