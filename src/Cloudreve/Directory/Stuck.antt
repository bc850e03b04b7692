-- ===== src/Cloudreve/Directory/Stuck.antt =====
-- Two ways in which the operations on directories go astray.
use pan_client.Base.{
  ℕ, zero, suc, ◌≡◌, refl, ap, ◌∙◌, false, ◌&&◌, some, List, ◌∷◌, ◌++◌, Text, codes, text_eq,
  is_empty, has_ext, rel, if◌then◌else◌, split, slash, replace_byte, Result, ok, err,
}
use pan_client.Errors.{GoError, only_error}
use pan_client.Cache.{Cache, GroupDo}
use pan_client.Cache.View.{view}
use pan_client.Cache.Loading.{get_or_load-hit}
use pan_client.Drive.{PanObj, MkdirReq, Call, ◌>>◌, return, relabel, bind-ok}
use pan_client.Drive.Listings.{cache_key}
use pan_client.Cloudreve.{Value, listing, Server, State}
use pan_client.Cloudreve.Replies.{no_return, create_directory}
use pan_client.Cloudreve.Directory.{
  with_root_id, drop_if, list, lookup_obj, exist_path, target_path, del_dir, first_part, make_first,
  mkdir,
}

module _ {W D : Type 0} (server : Server W D) (group_do : GroupDo Value W (GoError D)) where
  -- Directories that are no root and have the same id, or none, share a listing: once one is in the cache, and the listing
  -- is not to be reloaded, it is given for each of them, whatever its path and name.
  list-shared :
      (dir : PanObj) (objs : List PanObj) (c : Cache Value) (w : W)
      → (text_eq dir.path (codes "/") && is_empty dir.name) ≡ false
      → view (server.clock w) c (cache_key dir.id) ≡ some (listing objs)
      → list server group_do (record { reload = false; dir = dir }) (c, w) ≡ (ok objs, (c, w))
  unfolding list with_root_id drop_if
  list-shared dir objs c w no_root there =
      rw
        (
          no_root,
          get_or_load-hit server.clock group_do (cache_key dir.id) _ c w (listing objs) there,
        )
        refl

  -- The part that is created next.
  abbrev pub next_path : PanObj → Text → Text
  next_path obj r = exist_path obj ++ slash ∷ first_part (split slash (replace_byte b'\\' slash r))

  relabel-ok :
      {A : Type 0} (f : GoError D → GoError D) (a : A) (x : Result (GoError D) A × State W)
      → x.0 ≡ ok a
      → (relabel f x).0 ≡ ok a
  relabel-ok f a (ok b, s) h = h
  relabel-ok f a (err e, s) h = absurd (cc h)

  made :
      (obj : PanObj) (r : Text) (t : State W)
      → (create_directory server (next_path obj r) t).0 ≡ ok tt
      → (make_first server group_do obj (exist_path obj) (some r) t).0 ≡ ok tt
  unfolding make_first
  made obj r t h =
      ap (λ x. x.0)
        (bind-ok (λ u. del_dir obj.id (return tt))
          (relabel only_error (create_directory server (next_path obj r) t)) tt
          (relabel-ok only_error tt (create_directory server (next_path obj r) t) h))

  -- A round, with what was found.
  abbrev go : ℕ → MkdirReq → PanObj → Call (State W) D PanObj
  go fuel req obj =
      if text_eq (exist_path obj) (target_path req)
      then return obj
      else make_first server group_do obj (exist_path obj) (rel (exist_path obj) (target_path req))
        >> mkdir server group_do fuel req

  -- `Mkdir` of a directory that is never found, from states in which its lookup ends at `obj` and the next part of its path is
  -- accepted when it is created, a round leading from such a state to another, does not return: it creates this part again
  -- and again, for any number of rounds.
  pub mkdir-stuck :
      (P : State W → Type 0) (fuel : ℕ) (req : MkdirReq) (obj : PanObj) (r : Text) (s : State W)
      → is_empty req.new_path ≡ false
      → has_ext req.new_path ≡ false
      → text_eq (exist_path obj) (target_path req) ≡ false
      → rel (exist_path obj) (target_path req) ≡ some r
      → ((s : State W) → P s → (lookup_obj server group_do (target_path req) false s).0 ≡ ok obj)
      → ((s : State W)
          → P s
          → (create_directory server
              (next_path obj r)
              (lookup_obj server group_do (target_path req) false s).1).0
            ≡ ok tt)
      → ((s : State W)
          → P s
          → P
              (make_first server group_do obj
                (exist_path obj)
                (some r)
                (lookup_obj server group_do (target_path req) false s).1).1)
      → P s
      → (mkdir server group_do fuel req s).0 ≡ err no_return
  unfolding mkdir
  mkdir-stuck P zero req obj r s given no_ext missing way finds makes stays here = refl
  mkdir-stuck P (suc fuel) req obj r s given no_ext missing way finds makes stays here =
      let t = (lookup_obj server group_do (target_path req) false s).1 in
      let found : mkdir server group_do (suc fuel) req s ≡ go fuel req obj t =
        rw (given, no_ext)
          (bind-ok (go fuel req) (lookup_obj server group_do (target_path req) false s) obj
            (finds s here)) in
      let part : go fuel req obj t
          ≡ (make_first server group_do obj (exist_path obj) (some r)
                >> mkdir server group_do fuel req)
              t =
        rw (missing, way) refl in
      let again =
        bind-ok (λ u. mkdir server group_do fuel req)
          (make_first server group_do obj (exist_path obj) (some r) t) tt
          (made obj r t (makes s here)) in
      ap (λ x. x.0) (found ∙ part ∙ again)
      ∙ mkdir-stuck P fuel req obj r (make_first server group_do obj (exist_path obj) (some r) t).1
          given no_ext missing way finds makes stays (stays s here)
