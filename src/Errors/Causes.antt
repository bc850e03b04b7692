-- ===== src/Errors/Causes.antt =====
-- The cause of an error survives any number of rewrappings, and so does every message.
use pan_client.Base.{
  ℕ, ◌≡◌, refl, ap, ◌∙◌, inl, inr, Option, none, some, Option-cases, List, [], ◌∷◌, ◌++◌, Text,
  codes,
}
use pan_client.Errors.{GoError, driver, Found, as_driver, code_msg_error_data}

-- The code, message and data of one call.
abbrev pub Wrapping : Type 0 → Type 0
Wrapping D = ℕ × Text × Option D

abbrev pub behind : Option Text → Text → Text
behind none msg = msg
behind (some inner) msg = inner ++ (codes " " ++ msg)

module _ {D : Type 0} where
  abbrev cause_of : GoError D → Option (Found D) → GoError D
  cause_of e none = e
  cause_of e (some inner) = inner.cause

  abbrev message_of : Option (Found D) → Option Text
  message_of none = none
  message_of (some inner) = some inner.msg

  -- What an error says went wrong underneath: the cause of the first `DriverError` in its chain, or
  -- the error itself.
  abbrev pub root : GoError D → GoError D
  root e = cause_of e (as_driver e)

  -- `CodeMsgErrorData` again and again, the outermost first.
  unfoldable pub rewrap : GoError D → List (Wrapping D) → GoError D
  rewrap e [] = e
  rewrap e ((code, msg, d) ∷ ws) = code_msg_error_data code msg (rewrap e ws) d

  -- The messages on the way, the innermost first, with a space between two.
  unfoldable pub trail : GoError D → List (Wrapping D) → Option Text
  trail e [] = message_of (as_driver e)
  trail e ((code, msg, d) ∷ ws) = some (behind (trail e ws) msg)

  code_msg_error_data_lem :
      (code : ℕ) (msg : Text) (e : GoError D) (d : Option D)
      → code_msg_error_data code msg e d
        ≡ driver code (behind (message_of (as_driver e)) msg) (root e) d
  unfolding code_msg_error_data
  code_msg_error_data_lem code msg e d = elim (Option-cases (as_driver e)) [
    | inl n ↦ rw (n, code_msg_error_data) refl
    | inr (inner, s) ↦ rw (s, code_msg_error_data) refl
  ]

  -- However often an error is wrapped, the result is one `DriverError`: with the code and the data of
  -- the last wrapping, all the messages, the innermost first, and the cause that the error had
  -- underneath at the beginning.
  pub rewrap_lem :
      (e : GoError D) (code : ℕ) (msg : Text) (d : Option D) (ws : List (Wrapping D))
      → rewrap e ((code, msg, d) ∷ ws) ≡ driver code (behind (trail e ws) msg) (root e) d
  unfolding rewrap trail
  rewrap_lem e code msg d [] = code_msg_error_data_lem code msg e d
  rewrap_lem e code msg d ((code', msg', d') ∷ ws) =
      ap (λ x. code_msg_error_data code msg x d) (rewrap_lem e code' msg' d' ws)
      ∙ code_msg_error_data_lem code msg _ d
      ∙ unfold as_driver in refl
