-- ===== src/Errors.antt =====
-- pan/exception.go: the errors of the drivers. `D` is what the field `Data` holds.
pub mod Causes
mod Examples
use pan_client.Base.{ℕ, Option, none, some, [], ◌++◌, Text, codes}

-- A Go error: nil, an error of another package, one that wraps another by `%w`, or a `DriverError`
-- with its code, message, cause and data.
pub data GoError (D : Type 0) : Type 0 where
  nil : GoError D
  other : Text → GoError D
  wrapped : Text → GoError D → GoError D
  driver : ℕ → Text → GoError D → Option D → GoError D

abbrev pub unknown : ℕ
unknown = 9999

-- The message and the cause of a `DriverError`.
pub record Found (D : Type 0) : Type 0 where
  pub msg : Text
  pub cause : GoError D

module _ {D : Type 0} where
  -- `errors.As` for a `DriverError`: the first in the chain. `DriverError` itself unwraps to nothing.
  unfoldable pub as_driver : GoError D → Option (Found D)
  as_driver nil = none
  as_driver (other m) = none
  as_driver (wrapped m e) = as_driver e
  as_driver (driver code msg cause data') = some (record { msg = msg; cause = cause })

  flatten_error : ℕ → Text → GoError D → Option D → Option (Found D) → GoError D
  flatten_error code msg e d none = driver code msg e d
  flatten_error code msg e d (some inner) =
      driver code (inner.msg ++ (codes " " ++ msg)) inner.cause d

  unfoldable pub code_msg_error_data : ℕ → Text → GoError D → Option D → GoError D
  unfolding flatten_error
  code_msg_error_data code msg e d = flatten_error code msg e d (as_driver e)

  unfoldable pub code_msg_error : ℕ → Text → GoError D → GoError D
  unfolding code_msg_error_data
  code_msg_error code msg e = code_msg_error_data code msg e none

  unfoldable pub code_msg : ℕ → Text → GoError D
  unfolding code_msg_error_data
  code_msg code msg = code_msg_error_data code msg nil none

  unfoldable pub msg_error_data : Text → GoError D → Option D → GoError D
  unfolding code_msg_error_data
  msg_error_data msg e d = code_msg_error_data unknown msg e d

  unfoldable pub msg_error : Text → GoError D → GoError D
  unfolding msg_error_data
  msg_error msg e = msg_error_data msg e none

  unfoldable pub only_error : GoError D → GoError D
  unfolding msg_error
  only_error e = msg_error [] e

  unfoldable pub only_msg : Text → GoError D
  unfolding msg_error
  only_msg msg = msg_error msg nil

  unfoldable pub only_code : ℕ → GoError D
  unfolding code_msg
  only_code code = code_msg code []
