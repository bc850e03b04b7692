-- ===== src/Client/Examples.antt =====
-- Clients with small properties.
use pan_client.Base.{
  ℕ, ◌<◌, true, inl, inr, Bool-cases, subst, arith, suc, ◌≡◌, refl, if◌then◌else◌, none, some, List,
  [], ◌∷◌, ◌++◌, Text, codes, text_eq, Result, ok, err,
}
use pan_client.Errors.{GoError, only_msg}
use pan_client.Registry.{
  DriverType, quark, cloudreve, thunder_browser, aliyundrive_open, aliyundrive, baidu_netdisk,
  load_driver, store_driver, get_default_driver_id, remove_driver,
}
use pan_client.Client.{
  Client, ClientOption, World, apply_opts, new_client, new_quark_client, new_thunder_client,
  new_cloudreve_client, new_aliyundrive_open_client, new_aliyundrive_client, new_baidu_client,
  with_on_change, with_context, with_download_tmp_path, with_download_max_thread,
  with_download_max_retry, with_proxy, make_client, finish_client,
}
use pan_client.Client.Creation.{runs, remove_each, new_client-err, new_client-ok}

-- Properties are a number, which is also what `Init` tells good from bad by.
abbrev TestClient : Type 0
TestClient = Client ℕ ℕ ℕ

abbrev good : TestClient → Result (GoError ℕ) Text × TestClient
good d = (ok (codes "id"), record d { properties = suc d.properties })

abbrev bad : TestClient → Result (GoError ℕ) Text × TestClient
bad d = (err (only_msg (codes "no login")), d)

abbrev opts : List (ClientOption ℕ ℕ)
opts = with_download_max_thread 7 ∷ with_proxy (codes "p") ∷ []

abbrev fresh : World ℕ ℕ ℕ ℕ
fresh = record {
  registry = record {
    constructors = λ t. none;
    id_map = λ id. none;
    default_map = λ t. none;
    closed = [];
  };
  next_context = 0;
  cancelled = [];
  caches = [];
}

-- A client that was made before, under `id`.
abbrev before : World ℕ ℕ ℕ ℕ
before = (new_client 0 (λ p. p) good quark 4 opts fresh).1

older :
    (i : Text) (c : TestClient)
    → load_driver i before.registry ≡ some c
    → c.context.number < before.next_context
unfolding new_client finish_client make_client store_driver load_driver
older i c found = elim (Bool-cases (text_eq i (codes "id"))) [
  | inl same ↦
      let it : record (make_client 0 (λ p. p) good quark 4 opts fresh) { properties = 5 } ≡ c =
        cc (rw (same) at found) in
      subst (λ (d : TestClient). d.context.number < 1) it (omega arith)
  | inr other ↦ absurd (cc (rw (other) at found))
]

new_client-err_example :
    let made = new_client 0 (λ p. p) bad quark 4 opts before in
    (made.0 ≡ err (only_msg (codes "no login")))
    × (made.1.cancelled ≡ before.next_context ∷ before.cancelled)
    × (load_driver (codes "id") made.1.registry ≡ load_driver (codes "id") before.registry)
    × (get_default_driver_id quark made.1.registry ≡ get_default_driver_id quark before.registry)
    × (runs before.next_context (remove_each (codes "id" ∷ []) made.1).caches ≡ true)
new_client-err_example =
    new_client-err 0 (λ p. p) bad quark quark 4 opts before (codes "id") (codes "id" ∷ [])
      (only_msg (codes "no login")) (make_client 0 (λ p. p) bad quark 4 opts before) refl older

abbrev made_client : TestClient
made_client = (good (make_client 0 (λ p. p) good quark 4 opts fresh)).1

new_client-ok_example :
    let made = new_client 0 (λ p. p) good quark 4 opts fresh in
    (made.0 ≡ ok made_client)
    × (load_driver (codes "id") made.1.registry ≡ (
        if text_eq (codes "id") (codes "id")
        then some made_client
        else load_driver (codes "id") fresh.registry))
    × (get_default_driver_id quark made.1.registry ≡ get_default_driver_id quark fresh.registry)
    × (made.1.cancelled ≡ [])
    × (made.1.registry.closed ≡ [])
    × (load_driver (codes "id") (remove_driver (codes "id") made.1.registry) ≡ (
        if text_eq (codes "id") (codes "id")
        then none
        else load_driver (codes "id") fresh.registry))
    × ((remove_driver (codes "id") made.1.registry).closed ≡ [] ++ made_client ∷ [])
new_client-ok_example =
    new_client-ok 0 (λ p. p) good quark quark 4 opts fresh (codes "id") (codes "id") made_client
      refl

abbrev type_of : Result (GoError ℕ) TestClient × World ℕ ℕ ℕ ℕ → List DriverType
type_of (ok d, w) = d.driver_type ∷ []
type_of (err e, w) = []

abbrev all_options : List (ClientOption ℕ ℕ)
all_options =
    with_on_change 1
    ∷ with_context 2
    ∷ with_download_tmp_path (codes "t")
    ∷ with_download_max_retry 5
    ∷ []

client_types :
    type_of (new_quark_client 0 (λ p. p) good 4 opts fresh)
      ++ type_of (new_thunder_client 0 (λ p. p) good 4 opts fresh)
      ++ type_of (new_cloudreve_client 0 (λ p. p) good 4 opts fresh)
      ++ type_of (new_aliyundrive_open_client 0 (λ p. p) good 4 opts fresh)
      ++ type_of (new_aliyundrive_client 0 (λ p. p) good 4 opts fresh)
      ++ type_of (new_baidu_client 0 (λ p. p) good 4 all_options fresh)
    ≡ quark ∷ thunder_browser ∷ cloudreve ∷ aliyundrive_open ∷ aliyundrive ∷ baidu_netdisk ∷ []
unfolding new_quark_client new_thunder_client new_cloudreve_client new_aliyundrive_open_client
    new_aliyundrive_client new_baidu_client new_client finish_client make_client apply_opts
client_types = refl
