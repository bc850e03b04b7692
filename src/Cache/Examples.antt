-- ===== src/Cache/Examples.antt =====
-- The cache at small inputs.
use pan_client.Base.{
  ℕ, ◌+◌, ◌≡◌, refl, if◌then◌else◌, ltb, none, some, [], Text, codes, text_eq, ok, err, arith,
}
use pan_client.Cache.Operate.{
  new_cache_operate, stop_cache, operate_get, operate_set, operate_set_with_ttl, operate_del,
}
use pan_client.Cache.{
  Cache, Loading, GroupDo, check_and_load, new_cache, set, get, del, clear, stop, cleanup,
  set_with_ttl, get_or_load,
}
use pan_client.Cache.View.{view, Cache-refines}
use pan_client.Cache.Loading.{after_looks, kept, get_or_load_lem}

-- One value under "a", stored at 5 for 10.
abbrev one : Cache ℕ
one = set 5 (codes "a") 7 (new_cache 10)

abbrev a_key : Text
a_key = codes "a"

abbrev run_alone : GroupDo ℕ ℕ Text
run_alone key f s = f s

expired : (get 16 a_key one).1 ≡ none
unfolding get set new_cache text_eq
expired = refl

Cache-refines_example :
    ((get 6 a_key one).1 ≡ view 6 one a_key)
    × (view 9 (get 6 a_key one).0 (codes "b") ≡ view 9 one (codes "b"))
    × (view 9 (set_with_ttl 6 a_key 8 2 one) (codes "b") ≡ (
        if text_eq (codes "b") a_key
        then (if ltb (6 + 2) 9 then none else some 8)
        else view 9 one (codes "b")))
    × (view 9 (set 6 a_key 8 one) (codes "b") ≡ (
        if text_eq (codes "b") a_key
        then (if ltb (6 + one.default_ttl) 9 then none else some 8)
        else view 9 one (codes "b")))
    × (view 9 (del a_key one) (codes "b")
        ≡ (if text_eq (codes "b") a_key then none else view 9 one (codes "b")))
    × (view 9 (clear one) (codes "b") ≡ none)
    × (view 9 (cleanup 6 one) (codes "b") ≡ view 9 one (codes "b"))
    × (view 9 (stop one) (codes "b") ≡ view 9 one (codes "b"))
Cache-refines_example = Cache-refines 6 9 2 a_key (codes "b") 8 one (omega arith)

-- The world is the time, and a loader takes 2.
abbrev load_nine : Loading ℕ ℕ Text
load_nine (c, t) = (ok 9, (c, t + 2))

abbrev load_error : Loading ℕ ℕ Text
load_error (c, t) = (err (codes "no"), (c, t + 2))

abbrev read_time : ℕ → ℕ
read_time t = t

failed_load : (get_or_load read_time run_alone a_key load_error (one, 16)).0 ≡ err (codes "no")
unfolding set new_cache text_eq get get_or_load check_and_load
failed_load = refl

get_or_load_lem_example :
    get_or_load read_time run_alone a_key load_nine (one, 6) ≡ elim (view 6 one a_key) [
      | some v ↦ (ok v, (one, 6))
      | none ↦ kept read_time a_key (load_nine (after_looks 6 a_key one, 6))
    ]
get_or_load_lem_example =
    get_or_load_lem read_time run_alone a_key load_nine one 6 (λ key f s. refl)

-- A cache with no lifetime given keeps what is set for twelve hours, and loses it when it is deleted.
operate_steps :
    (operate_get 5 (codes "k") (some (new_cache {V = ℕ} 9)) ≡ some (new_cache 9, none))
    × (operate_set {V = ℕ} 0 (codes "k") 3 (stop_cache (new_cache_operate []))
        ≡ some (set {V = ℕ} 0 (codes "k") 3 (stop (new_cache 43200000000000))))
    × (operate_del (codes "k") (operate_set_with_ttl {V = ℕ} 0 (codes "k") 3 4 (some (new_cache 9)))
        ≡ some (del (codes "k") (set_with_ttl {V = ℕ} 0 (codes "k") 3 4 (new_cache 9))))
unfolding operate_get operate_set operate_del operate_set_with_ttl new_cache_operate stop_cache get
    new_cache
operate_steps = (refl, refl, refl)
