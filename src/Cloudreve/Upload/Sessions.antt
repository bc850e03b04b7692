-- ===== src/Cloudreve/Upload/Sessions.antt =====
-- The count of the errors of an upload, after which its session is given up.
use pan_client.Base.{
  ℕ, suc, ◌+◌, ◌≡◌, refl, ap, ◌∙◌, false, ltb, le→ltb, inl, inr, Bool-cases, if◌then◌else◌, none,
  some, Text, text_eq, text_eq→eq, text_eq_refl, is_empty, length, ok, arith,
}
use pan_client.Errors.{GoError}
use pan_client.Cache.{Cache, GroupDo, set, del}
use pan_client.Cache.View.{view, set-view, del-view}
use pan_client.Cache.Loading.{get_or_load-hit}
use pan_client.Local.{Files}
use pan_client.Cloudreve.{UploadCredential, Value, uploaded, err_times, Server}
use pan_client.Cloudreve.Replies.{
  file_upload_delete_upload_session, file_upload_delete_all_upload_session,
}
use pan_client.Cloudreve.Directory.{set_value}
use pan_client.Cloudreve.Upload.{
  session_key, chunk_key, session_err_key, forget, give_up, upload_err_after,
}

-- The keys of one upload differ.
err_session : (key : Text) → text_eq (session_err_key key) (session_key key) ≡ false
err_session key = elim (Bool-cases (text_eq (session_err_key key) (session_key key))) [
  | inr other ↦ other
  | inl same ↦ absurd (
      omega (
        arith,
        ap (λ (t : Text). length t) (text_eq→eq (session_err_key key) (session_key key) same),
      ))
]

session_err : (key : Text) → text_eq (session_key key) (session_err_key key) ≡ false
session_err key = elim (Bool-cases (text_eq (session_key key) (session_err_key key))) [
  | inr other ↦ other
  | inl same ↦ absurd (
      omega (
        arith,
        ap (λ (t : Text). length t) (text_eq→eq (session_key key) (session_err_key key) same),
      ))
]

err_chunk : (key : Text) → text_eq (session_err_key key) (chunk_key key) ≡ false
unfolding text_eq
err_chunk key = refl

module _ {W D : Type 0} (server : Server W D) (files : Files W D)
    (group_do : GroupDo Value W (GoError D)) (fuel : ℕ) where
  counted :
      (key : Text) (size i : ℕ) (cred : UploadCredential) (c : Cache Value) (w : W)
      → view (server.clock w) c (session_err_key key) ≡ some (err_times i)
      → upload_err_after server files group_do fuel key size cred (c, w) ≡ (
        ok tt,
        set_value server (session_err_key key) (err_times (suc i)) (
            if ltb 3 i
            then give_up server files group_do fuel key cred
                (set (server.clock w) (chunk_key key) (uploaded size) c, w)
            else (set (server.clock w) (chunk_key key) (uploaded size) c, w)),
      )
  unfolding upload_err_after
  counted key size i cred c w h =
      let c1 = set (server.clock w) (chunk_key key) (uploaded size) c in
      let there : view (server.clock w) c1 (session_err_key key) ≡ some (err_times i) =
        set-view (server.clock w) (server.clock w) (chunk_key key) (session_err_key key)
          (uploaded size) c
        ∙ rw (err_chunk key) h in
      rw
        (get_or_load-hit server.clock group_do (session_err_key key) (λ s. (ok (err_times 0), s)) c1
          w (err_times i) there)
        refl

  -- The state after `give_up`: some world, with the cache without the three entries.
  give_up-forget :
      (key : Text) (cred : UploadCredential) (c : Cache Value) (w : W)
      → (v : W) × (give_up server files group_do fuel key cred (c, w) ≡ forget key (c, v))
  unfolding give_up file_upload_delete_upload_session file_upload_delete_all_upload_session
  give_up-forget key cred c w = elim (Bool-cases (is_empty cred.session_id)) [
    | inl none_given ↦
        ((file_upload_delete_all_upload_session server (c, w)).1.1, rw none_given refl)
    | inr given ↦
        ((file_upload_delete_upload_session server cred.session_id (c, w)).1.1, rw given refl)
  ]

  forgotten_session :
      (later : ℕ) (key : Text) (c : Cache Value)
      → view later
          (del (session_err_key key) (del (chunk_key key) (del (session_key key) c)))
          (session_key key)
        ≡ none
  unfolding text_eq
  forgotten_session later key c =
      del-view later (session_err_key key) (session_key key)
        (del (chunk_key key) (del (session_key key) c))
      ∙ rw (session_err key)
          (del-view later (chunk_key key) (session_key key) (del (session_key key) c))
      ∙ del-view later (session_key key) (session_key key) c
      ∙ rw (text_eq_refl (session_key key)) refl

  forgotten_chunk :
      (later : ℕ) (key : Text) (c : Cache Value)
      → view later
          (del (session_err_key key) (del (chunk_key key) (del (session_key key) c)))
          (chunk_key key)
        ≡ none
  unfolding text_eq
  forgotten_chunk later key c =
      del-view later (session_err_key key) (chunk_key key)
        (del (chunk_key key) (del (session_key key) c))
      ∙ del-view later (chunk_key key) (chunk_key key) (del (session_key key) c)
      ∙ rw (text_eq_refl (chunk_key key)) refl

  -- What is seen behind the count that is stored last.
  stored :
      (key j : Text) (v : Value) (c : Cache Value) (w : W)
      → text_eq j (session_err_key key) ≡ false
      → view (server.clock w) (set_value server (session_err_key key) v (c, w)).0 j
        ≡ view (server.clock w) c j
  stored key j v c w other =
      set-view (server.clock w) (server.clock w) (session_err_key key) j v c ∙ rw other refl

  stored-same :
      (key : Text) (v : Value) (c : Cache Value) (w : W)
      → view (server.clock w) (set_value server key v (c, w)).0 key ≡ some v
  stored-same key v c w =
      set-view (server.clock w) (server.clock w) key key v c
      ∙ rw
          (text_eq_refl key, le→ltb (server.clock w + c.default_ttl) (server.clock w) (omega arith))
          refl

  -- A failed upload whose file failed `i` times before, as the count in the cache says: the count goes up by one,
  -- whatever else happens. After more than three failures what is kept of the session and of the bytes uploaded is
  -- dropped; else the size is kept, and the session as it was. The count is not reset with them: it stays above three.
  pub upload_err_after_lem :
      (key : Text) (size i : ℕ) (cred : UploadCredential) (c : Cache Value) (w : W)
      → view (server.clock w) c (session_err_key key) ≡ some (err_times i)
      → let r = upload_err_after server files group_do fuel key size cred (c, w) in
        let now = server.clock r.1.1 in
        (r.0 ≡ ok tt)
        × (view now r.1.0 (session_err_key key) ≡ some (err_times (suc i)))
        × (view now r.1.0 (session_key key)
            ≡ (if ltb 3 i then none else view now c (session_key key)))
        × (view now r.1.0 (chunk_key key) ≡ (if ltb 3 i then none else some (uploaded size)))
  unfolding forget text_eq
  upload_err_after_lem key size i cred c w h =
      let c1 = set (server.clock w) (chunk_key key) (uploaded size) c in
      let (v, gone) = give_up-forget key cred c1 w in
      elim (Bool-cases (ltb 3 i)) [
        | inl many ↦
            rw (counted key size i cred c w h, many, gone)
              (
                refl,
                stored-same (session_err_key key) (err_times (suc i)) (forget key (c1, v)).0 v,
                stored key (session_key key) (err_times (suc i)) (forget key (c1, v)).0 v
                      (session_err key)
                    ∙ forgotten_session (server.clock v) key c1,
                stored key (chunk_key key) (err_times (suc i)) (forget key (c1, v)).0 v refl
                    ∙ forgotten_chunk (server.clock v) key c1,
              )
        | inr few ↦
            rw (counted key size i cred c w h, few)
              (
                refl,
                stored-same (session_err_key key) (err_times (suc i)) c1 w,
                stored key (session_key key) (err_times (suc i)) c1 w (session_err key)
                    ∙ set-view (server.clock w) (server.clock w) (chunk_key key) (session_key key)
                        (uploaded size) c,
                stored key (chunk_key key) (err_times (suc i)) c1 w refl
                    ∙ stored-same (chunk_key key) (uploaded size) c w,
              )
      ]
