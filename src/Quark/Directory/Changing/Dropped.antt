-- ===== src/Quark/Directory/Changing/Dropped.antt =====
-- Which listings `Move` and `Delete` drop.
use pan_client.Base.{
  ℕ, zero, suc, ◌≡◌, refl, ◌∙◌, inl, inr, Bool, true, false, ◌==◌, if◌then◌else◌, none, List, ◌∷◌,
  map, Text, text_eq, is_empty, All, Result, ok, err, Bool-cases,
}
use pan_client.Errors.{GoError, only_error}
use pan_client.Cache.{GroupDo}
use pan_client.Cache.View.{view}
use pan_client.Drive.Listings.{cache_key, del_dirs, del_dirs-view}
use pan_client.Drive.{PanObj, Call, bind, relabel, file_type}
use pan_client.Drive.Lookup.{get_pan_obj}
use pan_client.Drive.Collect.{CollectResult, collect_item_ids}
use pan_client.Drive.Collect.Known.{HasId, id_of, drops, collect_item_ids-known}
use pan_client.Quark.{Server, State, TaskDoing}
use pan_client.Quark.Replies.{check_task_success, object_move, object_delete, task_query}
use pan_client.Quark.Directory.{list}
use pan_client.Quark.Directory.Changing.{after_change, delete, delete_items, move, move_items}

module _ {W D : Type 0} where
  -- Calls that leave the cache of the driver alone.
  KeepsCache : {A : Type 0} → Call (State W) D A → Type 0
  KeepsCache m = (s : State W) → (m s).1.0 ≡ s.0

  bind-KeepsCache :
      {A B : Type 0} (f : A → Call (State W) D B) (r : Result (GoError D) A × State W)
      → ((a : A) → KeepsCache (f a))
      → (bind f r).1.0 ≡ r.1.0
  unfolding KeepsCache
  bind-KeepsCache f (ok a, s) h = h a s
  bind-KeepsCache f (err e, s) h = refl

module _ {W D : Type 0} (server : Server W D) where
  check_task_success-cache :
      (fuel : ℕ) (done : Bool) (doing : TaskDoing)
      → KeepsCache (check_task_success server fuel done doing)
  unfolding check_task_success KeepsCache
  check_task_success-cache zero done doing s = refl
  check_task_success-cache (suc fuel) true doing s = refl
  check_task_success-cache (suc fuel) false doing s = elim (Bool-cases (is_empty doing.task_id)) [
    | inl none_given ↦ rw none_given refl
    | inr given ↦ rw given (
        bind-KeepsCache (λ query. check_task_success server fuel (query.status == 2) doing)
          (task_query server doing.task_id (s.0, server.sleep doing.tq_gap s.1))
          (λ query. check_task_success-cache fuel (query.status == 2) doing))
  ]

  object_delete-cache : (fuel : ℕ) (ids : List Text) → KeepsCache (object_delete server fuel ids)
  unfolding object_delete KeepsCache
  object_delete-cache fuel ids s =
      bind-KeepsCache (λ doing. check_task_success server fuel doing.finish doing) _
        (λ doing. check_task_success-cache fuel doing.finish doing)

  object_move-cache :
      (fuel : ℕ) (ids : List Text) (dst : Text) → KeepsCache (object_move server fuel ids dst)
  unfolding object_move KeepsCache
  object_move-cache fuel ids dst s =
      bind-KeepsCache (λ doing. check_task_success server fuel doing.finish doing) _
        (λ doing. check_task_success-cache fuel doing.finish doing)

-- What a request that succeeds drops of the listings.
abbrev pub dropped : {D A : Type 0} → Bool → List PanObj → Text → Result (GoError D) A → Bool
dropped fd items id (ok u) = drops fd items id
dropped fd items id (err e) = false

module _ {W D : Type 0} (server : Server W D) (group_do : GroupDo (List PanObj) W (GoError D))
    (fuel : ℕ) where
  after_change-view :
      (now : ℕ) (fd : Bool) (items : List PanObj) (collected : CollectResult)
      (asked : Result (GoError D) (Unit {0}) × State W) (id : Text)
      → collected.reload_dir_ids id ≡ drops fd items id
      → let r = after_change server group_do fuel collected asked in
        (r.0 ≡ asked.0)
        × (r.1.1 ≡ asked.1.1)
        × (view now r.1.0 (cache_key id)
            ≡ (if dropped fd items id asked.0 then none else view now asked.1.0 (cache_key id)))
  unfolding after_change del_dirs
  after_change-view now fd items collected (err e, s) id marks = (refl, refl, refl)
  after_change-view now fd items collected (ok u, s) id marks =
      (refl, refl, del_dirs-view now collected.reload_dir_ids s id ∙ rw marks refl)

  -- `Delete` of items that all have ids asks the server once for all of them, in their order, and has its
  -- answer. If it succeeds, exactly these listings are dropped: of every directory among the items, and of
  -- the parent that an item that is no directory knows by its id. If it does not, none is.
  pub delete_lem :
      (depth : ℕ) (item : PanObj) (items : List PanObj) (s : State W) (now : ℕ) (id : Text)
      → All HasId (item ∷ items)
      → let asked = object_delete server fuel (map id_of (item ∷ items)) s in
        let r = delete server group_do fuel depth (item ∷ items) s in
        (r.0 ≡ asked.0)
        × (r.1.1 ≡ asked.1.1)
        × (view now r.1.0 (cache_key id) ≡ (
            if dropped true (item ∷ items) id asked.0 then none else view now s.0 (cache_key id)))
  unfolding delete delete_items KeepsCache
  delete_lem depth item items s now id known =
      let collected =
        collect_item_ids (get_pan_obj (list server group_do fuel depth)) (item ∷ items) true s in
      let same =
        collect_item_ids-known (get_pan_obj (list server group_do fuel depth)) true (item ∷ items) s
          known in
      let asked = object_delete server fuel (map id_of (item ∷ items)) s in
      let some_ids : is_empty collected.0.obj_ids ≡ false = rw (same.1) refl in
      let changed = after_change-view now true (item ∷ items) collected.0 asked id (same.2 id) in
      rw (some_ids, same.0, same.1)
        (
          changed.0,
          changed.1,
          changed.2 ∙ rw (object_delete-cache server fuel (map id_of (item ∷ items)) s) refl,
        )

  relabel-cache :
      {A : Type 0} (f : GoError D → GoError D) (r : Result (GoError D) A × State W)
      → (relabel f r).1.0 ≡ r.1.0
  relabel-cache f (ok a, s) = refl
  relabel-cache f (err e, s) = refl

  -- `Move` of items that all have ids, to a directory that has one, asks the server once for all of them, in
  -- their order, and has its answer, with an error wrapped as one of the driver's. If it succeeds, the listings of the
  -- directories among the items are dropped and no others: neither those of the parents nor that of
  -- the target. If it does not, none is.
  pub move_lem :
      (depth : ℕ) (items : List PanObj) (target : PanObj) (s : State W) (now : ℕ) (id : Text)
      → All HasId items
      → is_empty target.id ≡ false
      → text_eq target.type file_type ≡ false
      → let asked = relabel only_error (object_move server fuel (map id_of items) target.id s) in
        let r = move server group_do fuel depth (record { items = items; target_obj = target }) s in
        (r.0 ≡ asked.0)
        × (r.1.1 ≡ asked.1.1)
        × (view now r.1.0 (cache_key id)
            ≡ (if dropped false items id asked.0 then none else view now s.0 (cache_key id)))
  unfolding move move_items KeepsCache
  move_lem depth items target s now id known there no_file =
      let collected =
        collect_item_ids (get_pan_obj (list server group_do fuel depth)) items false s in
      let same =
        collect_item_ids-known (get_pan_obj (list server group_do fuel depth)) false items s
          known in
      let moved = object_move server fuel (map id_of items) target.id s in
      let asked = relabel only_error moved in
      let changed = after_change-view now false items collected.0 asked id (same.2 id) in
      rw (there, no_file, same.0, same.1)
        (
          changed.0,
          changed.1,
          changed.2
              ∙ rw
                  (
                    relabel-cache only_error moved,
                    object_move-cache server fuel (map id_of items) target.id s,
                  )
                  refl,
        )
