-- ===== src/Registry.antt =====
-- pan/op.go: the drivers that are known by type, by id, and as the default of a type. A Go map is a
-- function; a driver is of a type `D`, and `closed` lists the drivers that were closed, in order.
pub mod Removal
mod Examples
use pan_client.Base.{
  ℕ, Bool, true, false, if◌then◌else◌, Option, none, some, List, [], ◌∷◌, ◌++◌, Text, text_eq,
}

pub data DriverType : Type 0 where
  cloudreve quark thunder_browser baidu_netdisk aliyundrive_open aliyundrive : DriverType

abbrev pub same_type : DriverType → DriverType → Bool
same_type cloudreve cloudreve = true
same_type quark quark = true
same_type thunder_browser thunder_browser = true
same_type baidu_netdisk baidu_netdisk = true
same_type aliyundrive_open aliyundrive_open = true
same_type aliyundrive aliyundrive = true
same_type _ _ = false

-- `C` is the type of a driver's constructor.
pub record Registry (C D : Type 0) : Type 0 where
  pub constructors : DriverType → Option C
  pub id_map : Text → Option D
  pub default_map : DriverType → Option Text
  pub closed : List D

abbrev pub unless_removed : Text → Option Text → Option Text
unless_removed id none = none
unless_removed id (some did) = if text_eq did id then none else some did

abbrev pub id_or_empty : Option Text → Text
id_or_empty none = []
id_or_empty (some id) = id

module _ {C D : Type 0} where
  unfoldable pub register_driver : DriverType → C → Registry C D → Registry C D
  register_driver t c r = record r {
    constructors = λ u. if same_type u t then some c else r.constructors u;
  }

  unfoldable pub get_driver_constructor : DriverType → Registry C D → Option C
  get_driver_constructor t r = r.constructors t

  unfoldable pub store_driver : Text → D → Registry C D → Registry C D
  store_driver id d r = record r { id_map = λ j. if text_eq j id then some d else r.id_map j }

  unfoldable pub load_driver : Text → Registry C D → Option D
  load_driver id r = r.id_map id

  unfoldable pub set_default_driver : DriverType → Text → Registry C D → Registry C D
  set_default_driver t id r = record r {
    default_map = λ u. if same_type u t then some id else r.default_map u;
  }

  -- The empty text where the type has no default.
  unfoldable pub get_default_driver_id : DriverType → Registry C D → Text
  get_default_driver_id t r = id_or_empty (r.default_map t)

  close_found : Text → Registry C D → Option D → Registry C D
  close_found id r none = r
  close_found id r (some d) = record r {
    id_map = λ j. if text_eq j id then none else r.id_map j;
    closed = r.closed ++ d ∷ [];
  }

  unfoldable pub remove_driver : Text → Registry C D → Registry C D
  unfolding close_found
  remove_driver id r =
      let r' = close_found id r (r.id_map id) in
      record r' { default_map = λ t. unless_removed id (r'.default_map t) }
