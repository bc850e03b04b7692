-- ===== src/Quark/Directory/Listing.antt =====
-- A listing is read whole, and then comes from the cache.
use pan_client.Base.{
  ℕ, zero, suc, ◌*◌, ◌-◌, ◌≤◌, ◌<◌, ◌≡◌, refl, sym, subst, ap, ◌∙◌, Bool, true, false, none, List,
  map, Text, text_eq_refl, is_empty, Result, ok, err, take, drop, length, half64,
}
use pan_client.Errors.{GoError}
use pan_client.Cache.{Cache, GroupDo, get_or_load, del}
use pan_client.Cache.View.{view}
use pan_client.Cache.Loading.{
  RunsAlone, kept, after_looks, get_or_load-hit, get_or_load-miss, get_or_load-view,
}
use pan_client.Drive.Listings.{cache_key}
use pan_client.Drive.{PanObj, bind, bind-ok, return}
use pan_client.Quark.{File, Server, State}
use pan_client.Quark.Replies.{return_by_status}
use pan_client.Quark.Pages.{page_size, file_sort}
use pan_client.Quark.Pages.Complete.{pages_lem}
use pan_client.Quark.Directory.{with_root_id, obj_of, list, list_known, load_dir, drop_if}

module _ {W D : Type 0} (server : Server W D) (group_do : GroupDo (List PanObj) W (GoError D))
    (alone : RunsAlone group_do) where
  -- A directory with an id is listed without a lookup.
  list-list_known :
      (fuel depth : ℕ) (reload : Bool) (dir : PanObj) (s : State W)
      → is_empty (with_root_id dir).id ≡ false
      → list server group_do fuel depth (record { reload = reload; dir = dir }) s
        ≡ list_known server group_do fuel reload (with_root_id dir).id (with_root_id dir) s
  unfolding list
  list-list_known fuel zero reload dir s known = refl
  list-list_known fuel (suc depth) reload dir s known = rw known refl

  list_known-again :
      (fuel : ℕ) (reload : Bool) (parent : Text) (dir : PanObj) (c : Cache (List PanObj)) (w : W)
      (objs : List PanObj)
      → let r = list_known server group_do fuel reload parent dir (c, w) in
        r.0 ≡ ok objs → list_known server group_do fuel false parent dir r.1 ≡ (ok objs, r.1)
  unfolding list_known drop_if load_dir
  list_known-again fuel true parent dir c w objs h =
      let loader = load_dir server group_do fuel parent dir in
      let key = cache_key dir.id in
      let r = get_or_load server.clock group_do key loader (del key c, w) in
      get_or_load-hit server.clock group_do key loader r.1.0 r.1.1 objs
        (get_or_load-view server.clock group_do key loader (del key c) w objs alone h)
  list_known-again fuel false parent dir c w objs h =
      let loader = load_dir server group_do fuel parent dir in
      let key = cache_key dir.id in
      let r = get_or_load server.clock group_do key loader (c, w) in
      get_or_load-hit server.clock group_do key loader r.1.0 r.1.1 objs
        (get_or_load-view server.clock group_do key loader c w objs alone h)

  del-view : (now : ℕ) (key : Text) (c : Cache (List PanObj)) → view now (del key c) key ≡ none
  unfolding del
  del-view now key c = rw (text_eq_refl key) refl

  module _ (dir : PanObj) (known : is_empty (with_root_id dir).id ≡ false) (files : List File)
      (P : W → Type 0) (small : length files < half64 - 200)
      (honest : (k : ℕ) (w : W)
        → P w
        → let answer = server.get_file_sort (with_root_id dir).id (suc k) page_size w in
          (return_by_status answer.0
            ≡ ok (take page_size (drop (k * page_size) files), length files))
          × P answer.1) where
    objs : List PanObj
    objs = map (obj_of (with_root_id dir).id (with_root_id dir)) files

    load_dir-file_sort :
        (rounds : ℕ) (s : State W)
        → P s.1
        → length files ≤ rounds * page_size
        → let r =
            load_dir server group_do (suc rounds) (with_root_id dir).id (with_root_id dir) s in
          (r.0 ≡ ok objs) × P r.1.1
    unfolding load_dir file_sort objs
    load_dir-file_sort rounds s p enough =
        let r = file_sort server (suc rounds) (with_root_id dir).id s in
        let read =
          pages_lem
            (λ page t. (
              return_by_status (server.get_file_sort (with_root_id dir).id page page_size t.1).0,
              (t.0, (server.get_file_sort (with_root_id dir).id page page_size t.1).1),
            ))
            files (λ (t : State W). P t.1) small (λ k t q. honest k t.1 q) rounds s p enough in
        let made : (bind {S = State W}
              (λ fs. return (map (obj_of (with_root_id dir).id (with_root_id dir)) fs)) r)
            ≡ (ok objs, r.1) =
          bind-ok (λ fs. return (map (obj_of (with_root_id dir).id (with_root_id dir)) fs)) r files
            (read.0) in
        subst (λ (q : Result (GoError D) (List PanObj) × State W). (q.0 ≡ ok objs) × P q.1.1)
          (sym made) (refl, read.1)

    kept-stored :
        (key : Text) (r : Result (GoError D) (List PanObj) × State W)
        → (r.0 ≡ ok objs) × P r.1.1
        → ((kept server.clock key r).0 ≡ ok objs) × P (kept server.clock key r).1.1
    unfolding objs
    kept-stored key (ok o, (c, w)) h = h
    kept-stored key (err e, (c, w)) h = absurd (cc (h.0))

    -- A reload of a directory with an id, with no other call for it on the way, from a server that has the
    -- given files in the directory and goes on having them: the files come back as objects, all of them and
    -- in order, each with the directory as its parent; and the next listing without a reload, if nothing
    -- comes between, gives the same objects and leaves the cache and the world as they are, so that the
    -- server is not asked again. A round for each page and one more is enough.
    pub list_reloaded :
        (rounds depth : ℕ) (c : Cache (List PanObj)) (w : W)
        → P w
        → length files ≤ rounds * page_size
        → let r =
            list server group_do (suc rounds) depth (record { reload = true; dir = dir }) (c, w) in
          (r.0 ≡ ok (map (obj_of (with_root_id dir).id (with_root_id dir)) files))
          × P r.1.1
          × (list server group_do (suc rounds) depth (record { reload = false; dir = dir }) r.1
              ≡ (ok (map (obj_of (with_root_id dir).id (with_root_id dir)) files), r.1))
    unfolding objs list_known drop_if
    list_reloaded rounds depth c w p enough =
        let id = (with_root_id dir).id in
        let key = cache_key id in
        let loader = load_dir server group_do (suc rounds) id (with_root_id dir) in
        let asked =
          get_or_load-miss server.clock group_do alone key loader (del key c) w
            (del-view (server.clock w) key c) in
        let stored =
          kept-stored key (loader (after_looks (server.clock w) key (del key c), w)) (
            load_dir-file_sort rounds (after_looks (server.clock w) key (del key c), w) p enough) in
        let first = list-list_known (suc rounds) depth true dir (c, w) known in
        let answer : (list server group_do (suc rounds) depth (record { reload = true; dir = dir })
              (c, w)).0
            ≡ ok objs =
          ap (λ q. q.0) (first ∙ asked) ∙ stored.0 in
        let seen =
          list_known-again (suc rounds) true id (with_root_id dir) c w objs
            (ap (λ q. q.0) asked ∙ stored.0) in
        (
          answer,
          subst (λ (q : Result (GoError D) (List PanObj) × State W). P q.1.1) (sym (first ∙ asked))
              (stored.1),
          list-list_known (suc rounds) depth false dir
                (list server group_do (suc rounds) depth (record { reload = true; dir = dir })
                  (c, w)).1
                known
              ∙ subst
                  (λ (q : Result (GoError D) (List PanObj) × State W).
                    list_known server group_do (suc rounds) false id (with_root_id dir) q.1
                    ≡ (ok objs, q.1))
                  (sym first) seen,
        )
