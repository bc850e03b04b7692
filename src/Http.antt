-- ===== src/Http.antt =====
-- What a driver sees of one exchange with its server. The request library is not of this repository:
-- a reply is what its call leaves in the variables of the driver.
use pan_client.Base.{ℕ, Bool, Text, Result}
use pan_client.Errors.{GoError}
use pan_client.Drive.{Call}

-- The fields that the drivers read of the result of a request; `body` is the field `Data`, with the
-- field `Metadata` where there is one. `status` and `code` are int64 patterns.
pub record Resp (T : Type 0) : Type 0 where
  pub status : ℕ
  pub code : ℕ
  pub msg : Text
  pub body : T

-- `failed` where the call gives an error; else whether the response is in the error state, the error
-- result and the success result.
pub data Reply (D T : Type 0) : Type 0 where
  failed : GoError D → Reply D T
  answered : Bool → Resp (Unit {0}) → Resp T → Reply D T

module _ {C W D : Type 0} where
  -- A request that changes the world `W` outside and leaves the driver's own state `C` alone.
  abbrev pub ask :
      {T A : Type 0} → (Reply D T → Result (GoError D) A) → (W → Reply D T × W) → Call (C × W) D A
  ask check send (c, w) = (check (send w).0, (c, (send w).1))

  -- Something that only changes the world, such as a sleep.
  abbrev pub world : {A : Type 0} → (W → W) → Call (C × W) D A → Call (C × W) D A
  world f m (c, w) = m (c, f w)
