-- ===== src/Command/Flags.antt =====
-- Set of internal/config/config.go: the flags from the command line and the environment. viper and
-- the flags' own parsers are parameters.
pub mod Merged
use signoz_operator.Prelude.{
  String, Bool, true, false, not, ◌&&◌, Option, none, some, List, [], ◌∷◌, ◌++◌, concat,
  if◌then◌else◌,
}
use signoz_operator.Errors.{Error, error_text, wrapped}

-- A flag with the text of its value; `changed` says that it was set.
pub record Flag : Type 0 where
  pub name : String
  pub value : String
  pub changed : Bool

-- What viper's Get answers where IsSet holds, by the flag's name; the error with which a flag
-- refuses a value; and the variable's name: the prefix and the flag's name joined by an underscore,
-- in upper case, with underscores for dashes.
pub record Environment : Type 0 where
  pub value_of : String → Option String
  pub refusal : String → String → Option Error
  pub variable : String → String

module _ (env : Environment) where
  unfoldable pub set_value : Flag → String → Option Error → Flag × List Error
  set_value f value none = (record { name = f.name; value = value; changed = true }, [])
  set_value f value (some e) =
      (f, wrapped (concat (env.variable f.name ∷ ": " ∷ error_text e ∷ [])) e ∷ [])

  unfoldable pub from_environment : Flag → Option String → Flag × List Error
  from_environment f none = (f, [])
  from_environment f (some value) = set_value f value (env.refusal f.name value)

  -- The function that VisitAll calls.
  unfoldable pub visit : Flag → Flag × List Error
  visit f = if not f.changed then from_environment f (env.value_of f.name) else (f, [])

  -- Set, with the flags after it and the errors that it joins.
  unfoldable pub set : List Flag → List Flag × List Error
  set [] = ([], [])
  set (f ∷ fs) = let (g, es) = visit f in let (gs, rest) = set fs in (g ∷ gs, es ++ rest)
