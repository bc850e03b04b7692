-- ===== src/Client.antt =====
-- enter.go: the options of a client and the creation of the clients, with `DownloadConfig` and
-- `NewBaseOperate` of pan/driver.go, and `RemoveDriver` of pan/op.go with the `Close` of a driver.
pub mod Options
pub mod Creation
mod Examples
use pan_client.Base.{
  ℕ, zero, suc, Bool, true, false, not, lt64, ◌==◌, keep, if◌then◌else◌, Option, none, some, List,
  [], ◌∷◌, Text, codes, is_empty, Result, ok, err,
}
use pan_client.Errors.{GoError}
use pan_client.Registry.{
  DriverType, quark, thunder_browser, cloudreve, aliyundrive_open, aliyundrive, baidu_netdisk,
  Registry, store_driver, load_driver, remove_driver,
}

-- `max_thread` and `max_retry` are int64 patterns.
pub record DownloadConfig : Type 0 where
  pub tmp_path : Text
  pub max_thread : ℕ
  pub max_retry : ℕ

unfoldable pub apply_defaults : DownloadConfig → DownloadConfig
apply_defaults dc = record {
  tmp_path = if is_empty dc.tmp_path then codes "./download_tmp" else dc.tmp_path;
  max_thread = if not (lt64 0 dc.max_thread) then 50 else dc.max_thread;
  max_retry = if not (lt64 0 dc.max_retry) then 3 else dc.max_retry;
}

-- `F` is the type of the callback, `X` that of a context of the caller.
pub record ClientOptions (F X : Type 0) : Type 0 where
  pub on_change : Option F
  pub ctx : X
  pub download_config : DownloadConfig
  pub proxy_url : Text

-- A context that is derived from the caller's; the number tells the derived ones apart.
pub record Context (X : Type 0) : Type 0 where
  pub parent : X
  pub number : ℕ

-- `P` stands for the properties of every driver, and a client's cache is in the world.
pub record Client (F X P : Type 0) : Type 0 where
  pub properties : P
  pub driver_type : DriverType
  pub on_change : Option F
  pub context : Context X
  pub download_config : DownloadConfig
  pub proxy_url : Text

-- `next_context` is the number of the next derived context, `cancelled` those that were cancelled, the
-- last first. `caches` are the numbers of the contexts of the clients whose cleanup runs: what
-- `StopCache` stops is the cleanup of its client.
pub record World (C F X P : Type 0) : Type 0 where
  pub registry : Registry C (Client F X P)
  pub next_context : ℕ
  pub cancelled : List ℕ
  pub caches : List ℕ

-- `Close` of a driver, the same in all of them: `Cancel` and `StopCache`.
close_client : {C F X P : Type 0} → Option (Client F X P) → World C F X P → World C F X P
close_client none w = w
close_client (some d) w = record w {
  cancelled = d.context.number ∷ w.cancelled;
  caches = keep (λ n. not (n == d.context.number)) w.caches;
}

-- `RemoveDriver` with what it closes.
unfoldable pub remove_client : {C F X P : Type 0} → Text → World C F X P → World C F X P
unfolding close_client
remove_client id w = record (close_client (load_driver id w.registry) w) {
  registry = remove_driver id w.registry;
}

abbrev pub ClientOption : Type 0 → Type 0 → Type 0
ClientOption F X = ClientOptions F X → ClientOptions F X

module _ {F X : Type 0} where
  abbrev pub with_on_change : F → ClientOption F X
  with_on_change fn o = record o { on_change = some fn }

  abbrev pub with_context : X → ClientOption F X
  with_context ctx o = record o { ctx = ctx }

  abbrev pub with_download_tmp_path : Text → ClientOption F X
  with_download_tmp_path p o = record o {
    download_config = record o.download_config { tmp_path = p };
  }

  abbrev pub with_download_max_thread : ℕ → ClientOption F X
  with_download_max_thread n o = record o {
    download_config = record o.download_config { max_thread = n };
  }

  abbrev pub with_download_max_retry : ℕ → ClientOption F X
  with_download_max_retry n o = record o {
    download_config = record o.download_config { max_retry = n };
  }

  abbrev pub with_proxy : Text → ClientOption F X
  with_proxy url o = record o { proxy_url = url }

  unfoldable pub apply_each : List (ClientOption F X) → ClientOptions F X → ClientOptions F X
  apply_each [] o = o
  apply_each (opt ∷ opts) o = apply_each opts (opt o)

  -- `applyOpts` up to the context that it derives; `background` is `context.Background()`.
  unfoldable pub apply_opts : X → List (ClientOption F X) → ClientOptions F X
  unfolding apply_each
  apply_opts background opts =
      let o = apply_each opts (record {
        on_change = none;
        ctx = background;
        download_config = record { tmp_path = []; max_thread = 0; max_retry = 0 };
        proxy_url = [];
      }) in
      record o { download_config = apply_defaults o.download_config }

-- `init` is the driver's `Init`, which may change the driver, and `set_default` fills the fields that
-- have defaults by their tags.
module _ {C F X P D : Type 0} (background : X) (set_default : P → P)
    (init : Client F X P → Result (GoError D) Text × Client F X P) where
  -- `number` is that of the context which `cancel` ends.
  unfoldable pub finish_client :
      ℕ
      → Result (GoError D) Text × Client F X P
      → World C F X P
      → Result (GoError D) (Client F X P) × World C F X P
  finish_client number (err e, d) w = (err e, record w { cancelled = number ∷ w.cancelled })
  finish_client number (ok id, d) w = (ok d, record w { registry = store_driver id d w.registry })

  unfoldable pub make_client :
      DriverType → P → List (ClientOption F X) → World C F X P → Client F X P
  make_client t props opts w =
      let o = apply_opts background opts in
      record {
        properties = set_default props;
        driver_type = t;
        on_change = o.on_change;
        context = record { parent = o.ctx; number = w.next_context };
        download_config = o.download_config;
        proxy_url = o.proxy_url;
      }

  unfoldable pub new_client :
      DriverType
      → P
      → List (ClientOption F X)
      → World C F X P
      → Result (GoError D) (Client F X P) × World C F X P
  unfolding finish_client
  new_client t props opts w =
      finish_client w.next_context (init (make_client t props opts w))
        (record w { next_context = suc w.next_context; caches = w.next_context ∷ w.caches })

  unfoldable pub new_quark_client :
      P
      → List (ClientOption F X)
      → World C F X P
      → Result (GoError D) (Client F X P) × World C F X P
  unfolding new_client
  new_quark_client = new_client quark

  unfoldable pub new_thunder_client :
      P
      → List (ClientOption F X)
      → World C F X P
      → Result (GoError D) (Client F X P) × World C F X P
  unfolding new_client
  new_thunder_client = new_client thunder_browser

  unfoldable pub new_cloudreve_client :
      P
      → List (ClientOption F X)
      → World C F X P
      → Result (GoError D) (Client F X P) × World C F X P
  unfolding new_client
  new_cloudreve_client = new_client cloudreve

  unfoldable pub new_aliyundrive_open_client :
      P
      → List (ClientOption F X)
      → World C F X P
      → Result (GoError D) (Client F X P) × World C F X P
  unfolding new_client
  new_aliyundrive_open_client = new_client aliyundrive_open

  unfoldable pub new_aliyundrive_client :
      P
      → List (ClientOption F X)
      → World C F X P
      → Result (GoError D) (Client F X P) × World C F X P
  unfolding new_client
  new_aliyundrive_client = new_client aliyundrive

  unfoldable pub new_baidu_client :
      P
      → List (ClientOption F X)
      → World C F X P
      → Result (GoError D) (Client F X P) × World C F X P
  unfolding new_client
  new_baidu_client = new_client baidu_netdisk
