-- ===== src/Baidu/Requests/Refresh.antt =====
-- What a request does about its token: the refresh of an expired one, and what no request changes.
use pan_client.Base.{
  ℕ, ◌≡◌, refl, ap, ◌∙◌, Bool, true, false, ◌||◌, ◌==◌, if◌then◌else◌, List, [], ◌∷◌, is_empty,
  Result, ok, err, arith,
}
use pan_client.Errors.{GoError, nil, only_error}
use pan_client.Cache.{Cache}
use pan_client.Drive.{PanObj, Call}
use pan_client.Baidu.{BaiduProperties, TokenResp, ApiReq, ApiResp, Server, State}
use pan_client.Baidu.Requests.{
  retry_msg, is_expired, take_token, refresh_token, on_token, after_send, attempts, request_waits,
  request,
}

module _ {W D : Type 0} (server : Server W D) where
  -- A token answer that is taken.
  abbrev pub IsUsable : TokenResp → Type 0
  IsUsable t = (t.failed ≡ false) × (is_empty t.error ≡ true) × (is_empty t.refresh_token ≡ false)

  abbrev pub changed_by : BaiduProperties → TokenResp → BaiduProperties
  changed_by props t = record props {
    access_token = t.access_token;
    refresh_token = t.refresh_token;
  }

  take_token-IsUsable :
      (t : TokenResp) (c : Cache (List PanObj)) (props : BaiduProperties) (w : W)
      → IsUsable t
      → take_token server (ok t) (c, (props, w))
        ≡ (ok tt, (c, (changed_by props t, server.notify (changed_by props t) w)))
  unfolding take_token
  take_token-IsUsable t c props w (f, e, r) = ground arith

  -- What no request changes: the cache, and who the client is; and a refresh token stays one.
  abbrev pub IsKept : State W → State W → Type 0
  IsKept s t =
      (t.0 ≡ s.0)
      × (t.1.0.client_id ≡ s.1.0.client_id)
      × (t.1.0.client_secret ≡ s.1.0.client_secret)
      × (is_empty t.1.0.refresh_token ≡ false)

  take_token-IsKept :
      (r : Result (GoError D) TokenResp) (c : Cache (List PanObj)) (props : BaiduProperties) (w : W)
      → is_empty props.refresh_token ≡ false
      → IsKept (c, (props, w)) (take_token server r (c, (props, w))).1
  unfolding take_token
  take_token-IsKept (err e) c props w h = (refl, refl, refl, h)
  take_token-IsKept (ok t) c props w h = ground arith

  IsKept-if :
      {A : Type 0} (b : Bool) (s : State W) (x y : A × State W)
      → IsKept s x.1
      → IsKept s y.1
      → IsKept s (if b then x else y).1
  IsKept-if true s x y h k = h
  IsKept-if false s x y h k = k

  IsKept-twice : (s t u : State W) → IsKept s t → IsKept t u → IsKept s u
  IsKept-twice s t u h k = (k.0 ∙ h.0, k.1 ∙ h.1, k.2 ∙ h.2, k.3)

  refresh_token-IsKept :
      (s : State W) → is_empty s.1.0.refresh_token ≡ false → IsKept s (refresh_token server s).1
  unfolding refresh_token
  refresh_token-IsKept (c, (props, w)) h =
      let answer = server.get_token props.refresh_token props.client_id props.client_secret w in
      IsKept-if (is_empty props.client_id || is_empty props.client_secret) (c, (props, w))
        (err _, (c, (props, w))) (take_token server answer.0 (c, (props, answer.1)))
        (refl, refl, refl, h) (take_token-IsKept answer.0 c props answer.1 h)

  -- A next attempt that keeps what is kept.
  abbrev Keeping : Call (State W) D ApiResp → Type 0
  Keeping go = (s : State W) → is_empty s.1.0.refresh_token ≡ false → IsKept s (go s).1

  Keeping-if :
      (b : Bool) (f g : Call (State W) D ApiResp)
      → Keeping f
      → Keeping g
      → Keeping (if b then f else g)
  Keeping-if true f g h k = h
  Keeping-if false f g h k = k

  on_token-IsKept :
      (go : Call (State W) D ApiResp) (s : State W) (r : Result (GoError D) (Unit {0}) × State W)
      → Keeping go
      → IsKept s r.1
      → IsKept s (on_token server go r).1
  unfolding on_token
  on_token-IsKept go s (ok u, t) keeps k = IsKept-twice s t (go t).1 k (keeps t k.3)
  on_token-IsKept go s (err e, t) keeps k = k

  after_send-IsKept :
      (req : ApiReq) (retry : GoError D → Call (State W) D ApiResp) (r : Result (GoError D) ApiResp)
      → ((e : GoError D) → Keeping (retry e))
      → Keeping (after_send server req retry r)
  unfolding after_send
  after_send-IsKept req retry (err e) keeps = keeps (only_error e)
  after_send-IsKept req retry (ok resp) keeps =
      Keeping-if (resp.errno == 0) _ _ (λ s h. (refl, refl, refl, h))
        (Keeping-if (is_expired resp) _ _
          (λ s h.
            on_token-IsKept (retry _) s (refresh_token server s) (keeps _)
              (refresh_token-IsKept s h))
          (λ s h. (refl, refl, refl, h)))

  attempts-IsKept :
      (waits : List ℕ) (e : GoError D) (req : ApiReq) → Keeping (attempts server waits e req)
  unfolding attempts
  attempts-IsKept [] e req s h = (refl, refl, refl, h)
  attempts-IsKept (wait ∷ waits) e req (c, (props, w)) h =
      let slept = if wait == 0 then w else server.sleep wait w in
      let answer = server.send props.access_token req slept in
      after_send-IsKept req (λ e. attempts server waits e req) answer.0
        (λ e. attempts-IsKept waits e req) (c, (props, answer.1)) h

  -- Whatever is answered, a request of a client with a refresh token leaves it with a refresh token, and changes neither
  -- the cache nor the id and the secret of the client.
  pub request-IsKept :
      (req : ApiReq) (s : State W)
      → is_empty s.1.0.refresh_token ≡ false
      → IsKept s (request server req s).1
  unfolding request
  request-IsKept req s h = attempts-IsKept request_waits nil req s h

  is_expired-errno : (resp : ApiResp) → is_expired resp ≡ true → (resp.errno == 0) ≡ false
  is_expired-errno resp h = ground arith

  after_send-expired :
      (req : ApiReq) (retry : GoError D → Call (State W) D ApiResp) (resp : ApiResp) (s : State W)
      → is_expired resp ≡ true
      → after_send server req retry (ok resp) s
        ≡ on_token server (retry (retry_msg resp)) (refresh_token server s)
  unfolding after_send
  after_send-expired req retry resp s h = rw (is_expired-errno resp h, h) refl

  after_send-answered :
      (req : ApiReq) (retry : GoError D → Call (State W) D ApiResp) (resp : ApiResp) (s : State W)
      → resp.errno ≡ 0
      → after_send server req retry (ok resp) s ≡ (ok resp, s)
  unfolding after_send
  after_send-answered req retry resp s h = rw h refl

  refresh_token-IsUsable :
      (t : TokenResp) (c : Cache (List PanObj)) (props : BaiduProperties) (w v : W)
      → is_empty props.client_id ≡ false
      → is_empty props.client_secret ≡ false
      → server.get_token props.refresh_token props.client_id props.client_secret w ≡ (ok t, v)
      → IsUsable t
      → refresh_token server (c, (props, w))
        ≡ (ok tt, (c, (changed_by props t, server.notify (changed_by props t) v)))
  unfolding refresh_token
  refresh_token-IsUsable t c props w v i s e u = rw (i, s, e) (take_token-IsUsable t c props v u)

  attempts-answered :
      (wait : ℕ) (waits : List ℕ) (e : GoError D) (req : ApiReq) (c : Cache (List PanObj))
      (props : BaiduProperties) (w v : W) (answer : ApiResp)
      → server.send props.access_token req (if wait == 0 then w else server.sleep wait w)
        ≡ (ok answer, v)
      → answer.errno ≡ 0
      → attempts server (wait ∷ waits) e req (c, (props, w)) ≡ (ok answer, (c, (props, v)))
  unfolding attempts
  attempts-answered wait waits e req c props w v answer sent good =
      rw sent
        (after_send-answered req (λ e. attempts server waits e req) answer (c, (props, v)) good)

  -- A request whose token has expired, the server answering 111 or -6, is answered in the end: the token server is asked
  -- with the refresh token, its tokens are kept and told to the client, and after a second the request is sent again with
  -- the new token, its answer being the result.
  pub request-refresh_token :
      (req : ApiReq) (c : Cache (List PanObj)) (props : BaiduProperties) (expired answer : ApiResp)
      (t : TokenResp) (w w1 w2 w3 : W)
      → server.send props.access_token req w ≡ (ok expired, w1)
      → is_expired expired ≡ true
      → is_empty props.client_id ≡ false
      → is_empty props.client_secret ≡ false
      → server.get_token props.refresh_token props.client_id props.client_secret w1 ≡ (ok t, w2)
      → IsUsable t
      → server.send t.access_token req (server.sleep 1000 (server.notify (changed_by props t) w2))
        ≡ (ok answer, w3)
      → answer.errno ≡ 0
      → request server req (c, (props, w)) ≡ (ok answer, (c, (changed_by props t, w3)))
  unfolding request attempts on_token
  request-refresh_token req c props expired answer t w w1 w2 w3 sent old i s told usable again
        good =
      let retry : GoError D → Call (State W) D ApiResp =
        λ e. attempts server (1000 ∷ 2000 ∷ []) e req in
      rw sent (
        after_send-expired req retry expired (c, (props, w1)) old
        ∙ ap (on_token server (retry (retry_msg expired)))
            (refresh_token-IsUsable t c props w1 w2 i s told usable)
        ∙ attempts-answered 1000 (2000 ∷ []) (retry_msg expired) req c (changed_by props t)
            (server.notify (changed_by props t) w2) w3 answer again good)
