-- ===== src/Baidu/Requests/Caching.antt =====
-- No request touches the cache, whatever is answered.
use pan_client.Base.{
  ℕ, ◌≡◌, refl, ◌∙◌, Bool, true, false, ◌==◌, if◌then◌else◌, List, [], ◌∷◌, Result, ok, err, arith,
}
use pan_client.Errors.{GoError, nil, only_error}
use pan_client.Cache.{Cache}
use pan_client.Drive.{PanObj, Call}
use pan_client.Baidu.{BaiduProperties, TokenResp, ApiReq, ApiResp, Server, State}
use pan_client.Baidu.Requests.{
  is_expired, take_token, refresh_token, on_token, after_send, attempts, request_waits, request,
}

module _ {W D : Type 0} (server : Server W D) where
  take_token-cache :
      (r : Result (GoError D) TokenResp) (c : Cache (List PanObj)) (props : BaiduProperties) (w : W)
      → (take_token server r (c, (props, w))).1.0 ≡ c
  unfolding take_token
  take_token-cache (err e) c props w = refl
  take_token-cache (ok t) c props w = ground arith

  refresh_token-cache : (s : State W) → (refresh_token server s).1.0 ≡ s.0
  unfolding refresh_token
  refresh_token-cache (c, (props, w)) =
      let answer = server.get_token props.refresh_token props.client_id props.client_secret w in
      ground (arith, take_token-cache answer.0 c props answer.1)

  -- A next attempt that leaves the cache.
  abbrev KeepsCache : Call (State W) D ApiResp → Type 0
  KeepsCache go = (s : State W) → (go s).1.0 ≡ s.0

  KeepsCache-if :
      (b : Bool) (f g : Call (State W) D ApiResp)
      → KeepsCache f
      → KeepsCache g
      → KeepsCache (if b then f else g)
  KeepsCache-if true f g h k = h
  KeepsCache-if false f g h k = k

  on_token-cache :
      (go : Call (State W) D ApiResp) (r : Result (GoError D) (Unit {0}) × State W)
      → KeepsCache go
      → (on_token server go r).1.0 ≡ r.1.0
  unfolding on_token
  on_token-cache go (ok u, t) keeps = keeps t
  on_token-cache go (err e, t) keeps = refl

  after_send-cache :
      (req : ApiReq) (retry : GoError D → Call (State W) D ApiResp) (r : Result (GoError D) ApiResp)
      → ((e : GoError D) → KeepsCache (retry e))
      → KeepsCache (after_send server req retry r)
  unfolding after_send
  after_send-cache req retry (err e) keeps = keeps (only_error e)
  after_send-cache req retry (ok resp) keeps =
      KeepsCache-if (resp.errno == 0) _ _ (λ s. refl)
        (KeepsCache-if (is_expired resp) _ _
          (λ s. on_token-cache (retry _) (refresh_token server s) (keeps _) ∙ refresh_token-cache s)
          (λ s. refl))

  attempts-cache :
      (waits : List ℕ) (e : GoError D) (req : ApiReq) → KeepsCache (attempts server waits e req)
  unfolding attempts
  attempts-cache [] e req s = refl
  attempts-cache (wait ∷ waits) e req (c, (props, w)) =
      let slept = if wait == 0 then w else server.sleep wait w in
      let answer = server.send props.access_token req slept in
      after_send-cache req (λ e. attempts server waits e req) answer.0
        (λ e. attempts-cache waits e req) (c, (props, answer.1))

  pub request-cache : (req : ApiReq) (s : State W) → (request server req s).1.0 ≡ s.0
  unfolding request
  request-cache req = attempts-cache request_waits nil req
